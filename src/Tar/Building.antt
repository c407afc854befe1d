-- ===== src/Tar/Building.antt =====
-- `NewSeekableTarReader`: the sections that it builds hold a TAR archive of the entries.
use mathlib.Core.Path.{subst}
use native.Mathlib.Nat.{zero-add}
use mathlib.Core.List.{append_assoc, append-nil}
use migration_planner.Prelude.{
  ℕ, String, ◌+◌, ◌-◌, ◌*◌, ◌/◌, ◌<◌, ◌≡◌, ◌≢◌, refl, sym, ◌∙◌, ap, ◌⊎◌, inl, inr, true, false,
  List, [], ◌∷◌, ◌++◌, arith, length, replicate, half_modulus, is_positive, length-append,
  length-replicate,
}
use migration_planner.Tar.{
  ok, err, IoError, bad_header, Reader, Section, TarEntry, TarReader, Layout, HeaderWriter,
  bytes_reader, zero_reader, padding, build_tar_header_bytes, append_section, append_if_positive,
  add_entry, add_entries, new_seekable_tar_reader,
}
use migration_planner.Tar.Sections.{Serves, Backs, bytes_reader-Serves, zero_reader-Serves}
use migration_planner.Tar.Reading.{IsArchive}

-- What a content of `size` bytes lacks to a whole number of blocks of 512 bytes.
abbrev pub lack : ℕ → ℕ
lack size = (size + 511) / 512 * 512 - size

-- The padding of the code is what the content lacks.
padding-lack : (size : ℕ) → size < half_modulus → padding size ≡ lack size
unfolding padding
padding-lack size h = ground arith

-- The archive as the format describes it, of members that are each a header and a content: each
-- member's header, its content, zeros up to a multiple of 512 bytes; then 1024 zeros.
abbrev pub members : List (List ℕ × List ℕ) → List ℕ
members [] = []
members ((header, content) ∷ rest) =
    header ++ (content ++ (replicate (lack (length content)) 0 ++ members rest))

abbrev pub archive : List (List ℕ × List ℕ) → List ℕ
archive parts = members parts ++ replicate 1024 0

-- The bytes of one entry, after those of the entries before it.
abbrev after_entry : List ℕ → List ℕ → List ℕ → List ℕ
after_entry bytes header content =
    ((bytes ++ header) ++ content) ++ replicate (lack (length content)) 0

length-after_entry :
    (bytes header content : List ℕ)
    → length (after_entry bytes header content)
      ≡ length bytes + length header + length content + lack (length content)
length-after_entry bytes header content = omega (
  arith,
  length-append ((bytes ++ header) ++ content) (replicate (lack (length content)) 0),
  length-append (bytes ++ header) content,
  length-append bytes header,
  length-replicate {A = ℕ} (lack (length content)) 0,
)

-- A header of one block is written.
build_tar_header_bytes_ok :
    (write_header : HeaderWriter) (name : String) (size mode mod_time : ℕ) (header : List ℕ)
    → write_header name size mode mod_time ≡ ok header
    → length header ≡ 512
    → build_tar_header_bytes write_header name size mode mod_time ≡ ok header
unfolding build_tar_header_bytes
build_tar_header_bytes_ok write_header name size mode mod_time header h k = ground arith

after_entry-members :
    (bytes header content : List ℕ) (rest : List (List ℕ × List ℕ))
    → after_entry bytes header content ++ members rest ≡ bytes ++ members ((header, content) ∷ rest)
after_entry-members bytes header content rest = simp append_assoc

module _ {W : Type 0} where
  -- The entries' headers are written without an error and are one block long, and their readers
  -- serve as many bytes as the entries say.
  pub data Holds (write_header : HeaderWriter)
      : List (TarEntry W) → List (List ℕ × List ℕ) → Type 0 where
    nil : Holds write_header [] []
    cons :
        {e : TarEntry W} {es : List (TarEntry W)} {header content : List ℕ}
        {parts : List (List ℕ × List ℕ)}
        → write_header e.name e.size e.mode e.mod_time ≡ ok header
        → length header ≡ 512
        → e.size ≡ length content
        → Serves content e.reader
        → Holds write_header es parts
        → Holds write_header (e ∷ es) ((header, content) ∷ parts)

  record Lays (l : Layout W) (bytes : List ℕ) : Type 0 where
    backs : Backs 0 l.0 bytes
    end_at : l.1 ≡ length bytes

  Backs-append :
      (off at n : ℕ) (secs : List (Section W)) (bytes c : List ℕ) (reader : Reader W)
      → Backs off secs bytes
      → at ≡ off + length bytes
      → n ≡ length c
      → Serves c reader
      → Backs off (secs ++ record { offset = at; len = n; reader = reader } ∷ []) (bytes ++ c)
  Backs-append off at n [] bytes c reader b e h serves = (
    c,
    [],
    omega (arith, ap length b),
    h,
    serves,
    ap (λ xs. xs ++ c) b ∙ sym (append-nil c),
    refl,
  )
  Backs-append off at n (s ∷ secs) bytes c reader (c', rest, o, l, sv, split, b) e h serves = (
    c',
    rest ++ c,
    o,
    l,
    sv,
    ap (λ xs. xs ++ c) split ∙ append_assoc c' rest c,
    Backs-append (off + length c') at n secs rest c reader b
        (omega (arith, ap length split, length-append c' rest)) h serves,
  )

  append_section-Lays :
      (l : Layout W) (n : ℕ) (reader : Reader W) (bytes c : List ℕ)
      → Lays l bytes
      → n ≡ length c
      → Serves c reader
      → length bytes + length c < half_modulus
      → Lays (append_section l n reader) (bytes ++ c)
  unfolding append_section
  append_section-Lays (secs, at) n reader bytes c l h serves small = record {
    backs =
        Backs-append 0 at n secs bytes c reader l.backs (l.end_at ∙ sym (zero-add (length bytes))) h
          serves;
    end_at = omega (arith, l.end_at, length-append bytes c);
  }

  append_if_positive-Lays :
      (l : Layout W) (n : ℕ) (reader : Reader W) (bytes c : List ℕ)
      → Lays l bytes
      → n ≡ length c
      → Serves c reader
      → length bytes + length c < half_modulus
      → Lays (append_if_positive l n reader) (bytes ++ c)
  unfolding append_if_positive
  append_if_positive-Lays l n reader bytes [] lays h serves small =
      let empty : is_positive n ≡ false = ground arith in rw empty (rw append-nil lays)
  append_if_positive-Lays l n reader bytes (x ∷ c) lays h serves small =
      let full : is_positive n ≡ true = ground arith in
      rw full (append_section-Lays l n reader bytes (x ∷ c) lays h serves small)

  add_entry-Lays :
      (write_header : HeaderWriter) (l : Layout W) (e : TarEntry W) (bytes header content : List ℕ)
      → Lays l bytes
      → write_header e.name e.size e.mode e.mod_time ≡ ok header
      → length header ≡ 512
      → e.size ≡ length content
      → Serves content e.reader
      → length (after_entry bytes header content) < half_modulus
      → (l' : Layout W) × (add_entry write_header l e ≡ ok l')
        × Lays l' (after_entry bytes header content)
  unfolding add_entry
  add_entry-Lays write_header l e bytes header content lays written one_block size serves small =
      let lens = length-after_entry bytes header content in
      let l₁ = append_section l (length header) (bytes_reader header) in
      let l₂ = append_if_positive l₁ e.size e.reader in
      let n = padding e.size in
      let fills : n ≡ lack (length content) =
        ap padding size ∙ padding-lack (length content) (omega (arith, lens, small)) in
      let lays₁ =
        append_section-Lays l (length header) (bytes_reader header) bytes header lays refl
          (bytes_reader-Serves header) (omega arith) in
      let lays₂ =
        append_if_positive-Lays l₁ e.size e.reader (bytes ++ header) content lays₁ size serves
          (omega (arith, length-append bytes header)) in
      let same : replicate {A = ℕ} n 0 ≡ replicate (lack (length content)) 0 =
        ap (λ k. replicate k 0) fills in
      let lays₃ =
        append_if_positive-Lays l₂ n (zero_reader n) ((bytes ++ header) ++ content) (replicate n 0)
          lays₂ (sym (length-replicate n 0)) (zero_reader-Serves n (omega (arith, fills)))
          (omega (
            arith,
            fills,
            length-append (bytes ++ header) content,
            length-append bytes header,
            length-replicate {A = ℕ} n 0,
          )) in
      (
        append_if_positive l₂ n (zero_reader n),
        rw (
          build_tar_header_bytes_ok write_header e.name e.size e.mode e.mod_time header written
              one_block,
          add_entry,
        ),
        subst
            (λ zs.
              Lays (append_if_positive l₂ n (zero_reader n)) (((bytes ++ header) ++ content) ++ zs))
            same lays₃,
      )

  add_entries-Lays :
      (write_header : HeaderWriter) (l : Layout W) (bytes : List ℕ) {es : List (TarEntry W)}
      {parts : List (List ℕ × List ℕ)}
      → Lays l bytes
      → Holds write_header es parts
      → length (bytes ++ members parts) < half_modulus
      → (l' : Layout W) × (add_entries write_header l es ≡ ok l') × Lays l' (bytes ++ members parts)
  unfolding add_entries
  add_entries-Lays write_header l bytes lays nil small =
      (l, refl, subst (Lays l) (sym (append-nil bytes)) lays)
  add_entries-Lays write_header l bytes lays
        (cons {e} {es} {header} {content} {parts} written one_block size serves rest) small =
      let eq = after_entry-members bytes header content parts in
      let (l₁, e₁, lays₁) =
        add_entry-Lays write_header l e bytes header content lays written one_block size serves (
          omega (
            arith,
            ap length eq,
            length-append (after_entry bytes header content) (members parts),
          )) in
      let (l₂, e₂, lays₂) =
        add_entries-Lays write_header l₁ (after_entry bytes header content) lays₁ rest
          (omega (arith, ap length eq)) in
      (l₂, rw (e₁, add_entries) e₂, subst (Lays l₂) eq lays₂)

  -- The constructor succeeds on entries whose headers are written and whose readers hold what the
  -- entries say, where the archive is shorter than 2^63 bytes: the sections then hold the archive
  -- that the format describes, the size returned is its length, and the position is 0.
  pub new_seekable_tar_reader-IsArchive :
      (write_header : HeaderWriter) (entries : List (TarEntry W)) (parts : List (List ℕ × List ℕ))
      → Holds write_header entries parts
      → length (archive parts) < half_modulus
      → (r : TarReader W) × (new_seekable_tar_reader write_header entries
          ≡ ok (r, length (archive parts)))
        × IsArchive r (archive parts)
        × (r.pos ≡ 0)
  unfolding new_seekable_tar_reader
  new_seekable_tar_reader-IsArchive write_header entries parts holds small =
      let size = length-append (members parts) (replicate 1024 0) in
      let (l, e, lays) =
        add_entries-Lays write_header ([], 0) [] (record { backs = refl; end_at = refl }) holds
          (omega (arith, size)) in
      let full = append_section l 1024 (zero_reader 1024) in
      let laid =
        append_section-Lays l 1024 (zero_reader 1024) (members parts) (replicate 1024 0) lays refl
          (zero_reader-Serves 1024 (omega arith)) (omega (arith, size)) in
      (
        record { sections = full.0; total = full.1; pos = 0 },
        rw (e, new_seekable_tar_reader)
            (ap (λ n. ok (record { sections = full.0; total = full.1; pos = 0 }, n)) laid.end_at),
        record { backs = laid.backs; total_eq = laid.end_at; small = small },
        refl,
      )

  add_entries-append :
      (write_header : HeaderWriter) (before after : List (TarEntry W)) (l : Layout W)
      {parts : List (List ℕ × List ℕ)} (x : IoError)
      → Holds write_header before parts
      → ((l' : Layout W) → add_entries write_header l' after ≡ err x)
      → add_entries write_header l (before ++ after) ≡ err x
  unfolding add_entries add_entry
  add_entries-append write_header [] after l x nil h = h l
  add_entries-append write_header (e ∷ es) after l x
        (cons {header = header} written one_block size serves rest) h =
      rw
        (
          build_tar_header_bytes_ok write_header e.name e.size e.mode e.mod_time header written
              one_block,
          add_entry,
          add_entries,
        )
        (add_entries-append write_header es after _ x rest h)

  -- The first entry whose header cannot be written, or takes another size than one block, makes
  -- the constructor fail with that error.
  new_seekable_tar_reader_bad_header :
      (write_header : HeaderWriter) (before after : List (TarEntry W)) (e : TarEntry W)
      (parts : List (List ℕ × List ℕ)) (x : IoError)
      → Holds write_header before parts
      → (write_header e.name e.size e.mode e.mod_time ≡ err x)
        ⊎ ((header : List ℕ) × (write_header e.name e.size e.mode e.mod_time ≡ ok header)
            × (length header ≢ 512)
            × (x ≡ bad_header))
      → new_seekable_tar_reader write_header (before ++ e ∷ after) ≡ err x
  unfolding new_seekable_tar_reader add_entries add_entry build_tar_header_bytes
  new_seekable_tar_reader_bad_header write_header before after e parts x holds bad =
      let fails : (l : Layout W) → add_entries write_header l (e ∷ after) ≡ err x =
        λ l. elim bad [ inl b ↦ ground arith | inr b ↦ ground arith ] in
      rw (
        add_entries-append write_header before (e ∷ after) ([], 0) x holds fails,
        new_seekable_tar_reader,
      )
