-- ===== src/Storage/RoundTrip.antt =====
-- Reading back what the writer has stored.
use miri_tool_v.Base.{
  ℕ, ◌+◌, ◌≡◌, ◌≢◌, refl, sym, ap₂, ◌∙◌, true, Bytes, List, [], ◌∷◌, ◌++◌, All, length, take, drop,
  take_split, done, ◌>>=◌,
}
use miri_tool_v.Storage.{
  Cipher, Medium, IsSound, Reader, Writer, writer_open, writer_close, reader_open, reader_read,
}
use miri_tool_v.Storage.Blocks.{concat, write_pieces, Stored, written-Stored}
use miri_tool_v.Storage.Reading.{IsCipher, Holds, reader_read-Gives}

module _ (cipher : Cipher) (law : IsCipher cipher) where
  -- The calls of `fw_storage_reader_read` for a sequence of sizes, and all that they hand out.
  abbrev pub read_sizes : List ℕ → Reader → Bytes
  read_sizes [] r = []
  read_sizes (n ∷ ns) r = let read = reader_read cipher n r in read.out ++ read_sizes ns read.reader

  abbrev pub total : List ℕ → ℕ
  total [] = 0
  total (n ∷ ns) = n + total ns

  read_sizes-Holds :
      (ns : List ℕ) (content : Bytes) (r : Reader)
      → Holds cipher law content r
      → read_sizes ns r ≡ take (total ns) content
  read_sizes-Holds [] content r h = refl
  read_sizes-Holds (n ∷ ns) content r h =
      let given = reader_read-Gives cipher law n content r h in
      ap₂ (λ a b. a ++ b) given.0
        (read_sizes-Holds ns (drop n content) (reader_read cipher n r).reader given.1)
      ∙ sym (take_split n (total ns) content)

  -- The reader of a stored file, opened with the length as the original size.
  pub reader_open-Holds :
      (content file : Bytes)
      → Stored cipher content file
      → Holds cipher law content (reader_open true true (length content) file)
  reader_open-Holds content file stored = record {
    blocks = stored.blocks;
    slack = stored.slack;
    whole = stored.whole;
    in_file = stored.in_file;
    rest = stored.holds;
    left = refl;
    is_active = refl;
    is_encrypted = refl;
  }

  -- With a cipher that decrypts what it encrypts, on a card that takes all bytes and keeps the
  -- metadata: a file that is written in pieces, none of them
  -- empty, and closed is read back, by reads of any sizes, as the first bytes of what the pieces
  -- make up, all of it as soon as the sizes add up to its length. The reader is opened with the
  -- length as the original size.
  pub read_sizes-write_pieces :
      (medium : Medium) (pieces : List Bytes) (sizes : List ℕ)
      → IsSound medium
      → All (λ p. p ≢ []) pieces
      → (v : Writer) × ((write_pieces cipher pieces (writer_open medium)
            >>= writer_close cipher true)
          ≡ done v)
        × (read_sizes sizes (reader_open true true (length (concat pieces)) v.file)
            ≡ take (total sizes) (concat pieces))
  read_sizes-write_pieces medium pieces sizes sound h =
      let (v, closes, stored) = written-Stored cipher medium pieces sound h in
      (
        v,
        closes,
        read_sizes-Holds sizes (concat pieces)
            (reader_open true true (length (concat pieces)) v.file)
            (reader_open-Holds (concat pieces) v.file stored),
      )
