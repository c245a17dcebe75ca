-- ===== src/Io/Stored.antt =====
-- What a file holds while batches are written: each chunk of a column stands at its offset.
use columnar_engine.Base.{
  get_elem?, get_elem?-append, length-append_one, ap, length-append, append-nil, Option-cases, inl,
  inr, map, refl, ok, some, none, ℕ, suc, ◌≡◌, ◌∙◌, List, [], ◌∷◌, ◌++◌, append_assoc, length,
}
use columnar_engine.Base.Words.{Bytes}
use columnar_engine.Types.ColumnTypes.{ColumnType}
use columnar_engine.Columns.Column.{Column}
use columnar_engine.Columns.Bytes.{encode}
use columnar_engine.Columns.RoundTrip.{decode-encode, Storable}
use columnar_engine.Io.Metadata.{ColumnMetadata}
use columnar_engine.Io.Writer.{Written, add_chunk, write_columns}

-- The bytes of column `c` stand in `file` at offset `o`, and there are `s` of them.
pub record Chunk (file : Bytes) (t : ColumnType) (o s : ℕ) (c : Column) : Type 0 where
  pub front : Bytes
  pub bytes : Bytes
  pub back : Bytes
  pub splits : file ≡ front ++ (bytes ++ back)
  pub offset_is : o ≡ length front
  pub size_is : s ≡ length bytes
  pub encodes : encode t c ≡ ok bytes
  pub storable : Storable t c

-- The chunks of a column, one for each entry of its two tables.
pub data Chunks (file : Bytes) (t : ColumnType) : List ℕ → List ℕ → List Column → Type 0 where
  no_chunk : Chunks file t [] [] []
  chunk :
      {o s : ℕ} {c : Column} {os ss : List ℕ} {cs : List Column}
      → Chunk file t o s c
      → Chunks file t os ss cs
      → Chunks file t (o ∷ os) (s ∷ ss) (c ∷ cs)

-- Column `i` of each batch.
abbrev pub gather : ℕ → List (List Column) → List Column
gather i [] = []
gather i (b ∷ bs) = elim (get_elem? b i) [ none ↦ gather i bs | some c ↦ c ∷ gather i bs ]

-- Each column from `i` on has its chunks of all batches in the file.
abbrev pub Stored : Bytes → ℕ → List ColumnMetadata → List (List Column) → Type 0
Stored file i [] bs = Unit
Stored file i (m ∷ ms) bs =
    Chunks file m.type_of m.offsets m.sizes (gather i bs) × Stored file (suc i) ms bs

-- The columns of a batch can be stored under the types of the header.
pub data StorableAll : List ColumnMetadata → List Column → Type 0 where
  no_column : StorableAll [] []
  column :
      {m : ColumnMetadata} {c : Column} {ms : List ColumnMetadata} {cs : List Column}
      → Storable m.type_of c
      → StorableAll ms cs
      → StorableAll (m ∷ ms) (c ∷ cs)

Chunk-append :
    {file : Bytes} {t : ColumnType} {o s : ℕ} {c : Column} (more : Bytes)
    → Chunk file t o s c
    → Chunk (file ++ more) t o s c
Chunk-append more k = record {
  front = k.front;
  bytes = k.bytes;
  back = k.back ++ more;
  splits = rw k.splits (append_assoc k.front (k.bytes ++ k.back) more ∙ rw (append_assoc k.bytes));
  offset_is = k.offset_is;
  size_is = k.size_is;
  encodes = k.encodes;
  storable = k.storable;
}

Chunks-append :
    {file : Bytes} {t : ColumnType} {os ss : List ℕ} {cs : List Column} (more : Bytes)
    → Chunks file t os ss cs
    → Chunks (file ++ more) t os ss cs
Chunks-append more no_chunk = no_chunk
Chunks-append more (chunk k ks) = chunk (Chunk-append more k) (Chunks-append more ks)

Chunks-add :
    {file : Bytes} {t : ColumnType} {os ss : List ℕ} {cs : List Column} {o s : ℕ} {c : Column}
    → Chunks file t os ss cs
    → Chunk file t o s c
    → Chunks file t (os ++ o ∷ []) (ss ++ s ∷ []) (cs ++ c ∷ [])
Chunks-add no_chunk k = chunk k no_chunk
Chunks-add (chunk x ks) k = chunk x (Chunks-add ks k)

pub Stored-append :
    (file more : Bytes) (i : ℕ) (ms : List ColumnMetadata) (bs : List (List Column))
    → Stored file i ms bs
    → Stored (file ++ more) i ms bs
Stored-append file more i [] bs h = h
Stored-append file more i (m ∷ ms) bs h =
    (Chunks-append more h.0, Stored-append file more (suc i) ms bs h.1)

gather-append :
    (i : ℕ) (bs : List (List Column)) (b : List Column) {c : Column}
    → get_elem? b i ≡ some c
    → gather i (bs ++ b ∷ []) ≡ gather i bs ++ c ∷ []
gather-append i [] b e = rw (gather, e)
gather-append i (x ∷ bs) b e = elim (Option-cases (get_elem? x i)) [
  | inl e' ↦ rw (gather, e') (gather-append i bs b e)
  | inr (y, e') ↦ rw (gather, e') (ap (◌∷◌ y) (gather-append i bs b e))
]

-- The names and types of the columns.
abbrev pub header_of : ColumnMetadata → Bytes × ColumnType
header_of m = (m.name, m.type_of)

-- What the loop over the columns of a batch does to the file and the metadata, from column `i` on.
pub record Extends (file : Bytes) (i : ℕ) (ms : List ColumnMetadata) (bs : List (List Column))
    (d : Written) : Type 0 where
  pub stored : Stored (file ++ d.bytes) i d.metadata bs
  pub ends : d.offset ≡ length (file ++ d.bytes)
  pub headers : map header_of d.metadata ≡ map header_of ms

pub write_columns-Extends :
    (file : Bytes) (i : ℕ) (ms : List ColumnMetadata) (cs pre : List Column)
    (bs : List (List Column))
    → i ≡ length pre
    → Stored file i ms bs
    → StorableAll ms cs
    → (d : Written) × (write_columns ms cs (length file) ≡ ok d)
      × Extends file i ms (bs ++ (pre ++ cs) ∷ []) d
unfolding write_columns
write_columns-Extends file i [] [] pre bs at_i h no_column = (
  record { bytes = []; metadata = []; offset = length file },
  refl,
  record { stored = tt; ends = rw append-nil; headers = refl },
)
write_columns-Extends file i [] (c ∷ cs) pre bs at_i h s = elim s [ ]
write_columns-Extends file i (m ∷ ms) [] pre bs at_i h s = elim s [ ]
write_columns-Extends file i (m ∷ ms) (c ∷ cs) pre bs at_i h (column sc scs) =
    let (b, written, _) = decode-encode sc in
    let (d, later, x) =
      write_columns-Extends (file ++ b) (suc i) ms cs (pre ++ c ∷ []) bs
        (rw (length-append_one pre c) (ap suc at_i)) (Stored-append file b (suc i) ms bs h.1) scs in
    let here : get_elem? (pre ++ c ∷ cs) i ≡ some c = rw at_i (get_elem?-append pre c cs) in
    let new : Chunk ((file ++ b) ++ d.bytes) m.type_of (length file) (length b) c = record {
      front = file;
      bytes = b;
      back = d.bytes;
      splits = append_assoc file b d.bytes;
      offset_is = refl;
      size_is = refl;
      encodes = written;
      storable = sc;
    } in
    (
      record {
        bytes = b ++ d.bytes;
        metadata = add_chunk m (length file) (length b) ∷ d.metadata;
        offset = d.offset;
      },
      rw (written, ← length-append file b, later),
      record {
        stored =
            rw (← append_assoc file b d.bytes, gather-append i bs (pre ++ c ∷ cs) here)
              (
                Chunks-add (Chunks-append d.bytes (Chunks-append b h.0)) new,
                rw (append_assoc file b d.bytes, append_assoc pre (c ∷ []) cs) at x.stored,
              );
        ends = rw (← append_assoc file b d.bytes) x.ends;
        headers = ap (◌∷◌ (header_of m)) x.headers;
      },
    )
