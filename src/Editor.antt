-- ===== src/Editor.antt =====
-- The text editor's documents: the types of
-- components/cyberdeck/include/apps/editor/cyberdeck_editor_model.h. A text is the list of its bytes.
pub mod Utf8
pub mod CodePage
pub mod Codec
pub mod Position
pub mod Model
mod Tests
use cyberdeck.Common.{ℕ, List, Bool}

abbrev pub max_document_bytes : ℕ
max_document_bytes = 12000

abbrev pub max_undo : ℕ
max_undo = 8

abbrev pub max_history_bytes : ℕ
max_history_bytes = 32768

pub data Encoding : Type 0 where
  utf8 utf16_le utf16_be windows_1252 : Encoding

pub data LineEnding : Type 0 where
  lf crlf cr : LineEnding

pub data LoadStatus : Type 0 where
  ok too_large binary invalid_encoding unsupported : LoadStatus

pub record DocumentInfo : Type 0 where
  pub codec : Encoding
  pub eol : LineEnding
  pub bom : Bool

pub record LoadResult : Type 0 where
  pub status : LoadStatus
  pub text : List ℕ
  pub info : DocumentInfo
