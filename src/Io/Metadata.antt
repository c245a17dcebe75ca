-- ===== src/Io/Metadata.antt =====
-- `ColumnMetadata` of types/ColumnType.h.
use columnar_engine.Base.{ℕ, List}
use columnar_engine.Base.Words.{Bytes, codes}
use columnar_engine.Types.ColumnTypes.{ColumnType}

pub record ColumnMetadata : Type 0 where
  pub name : Bytes
  pub type_of : ColumnType
  pub offsets : List ℕ
  pub sizes : List ℕ

abbrev pub magic : Bytes
magic = codes "TUFF"
