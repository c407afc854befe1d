-- ===== src/Tar.antt =====
-- internal/image/seekable_tar.go: a virtual TAR archive made of sections, each backed by a reader,
-- which http.ServeContent reads and seeks.
--
-- `W` is the state of the underlying readers (files, network). A reader is called only as
-- `Seek(off, io.SeekStart)` followed by `Read(p)`, so it is one function of the offset, of len(p)
-- and of `W`. archive/tar's header writer is the parameter `write_header`.
mod Sections
mod Reading
mod Building
mod Seeking
mod Scenarios
use migration_planner.Prelude.{
  ℕ, zero, suc, ◌-◌, ◌%◌, String, not, ◌&&◌, Option, none, some, List, [], ◌∷◌, ◌++◌, ◌==◌, ltb,
  leb, if◌then◌else◌, length, take, drop, replicate, modulus, add64, sub64, lt64, is_negative,
  is_positive,
}

pub data IoError : Type 0 where
  eof no_progress invalid_whence negative_position bad_header : IoError
  other : ℕ → IoError

pub data Result {ℓ} (A : Type ℓ) : Type ℓ where
  ok : A → Result A
  err : IoError → Result A

-- What a seek to an offset followed by a read gives: the seek's error, or the bytes read with the
-- error of the read.
pub data Outcome : Type 0 where
  seek_error : IoError → Outcome
  chunk : List ℕ → Option IoError → Outcome

abbrev pub Reader : Type 0 → Type 0
Reader W = ℕ → ℕ → W → Outcome × W

-- The new position of `Seek`, for a reader of the given size; whence is 0, 1 or 2.
pub seek_position : ℕ → ℕ → ℕ → ℕ → Result ℕ
seek_position size pos offset whence =
    let checked =
      λ (new_pos : ℕ). if is_negative new_pos then err negative_position else ok new_pos in
    if whence == 0
    then checked offset
    else if whence == 1
    then checked (add64 pos offset)
    else if whence == 2
    then checked (add64 size offset)
    else err invalid_whence

pub record ZeroReader : Type 0 where
  pub size : ℕ
  pub pos : ℕ

pub zero_read : ZeroReader → ℕ → (List ℕ × Option IoError) × ZeroReader
zero_read z want =
    let remaining = sub64 z.size z.pos in
    if not (is_positive remaining)
    then (([], some eof), z)
    else let n = if lt64 remaining want then remaining else want in
      ((replicate n 0, none), record z { pos = add64 z.pos n })

pub zero_seek : ZeroReader → ℕ → ℕ → Result ℕ × ZeroReader
unfolding seek_position
zero_seek z offset whence = elim (seek_position z.size z.pos offset whence) [
  | ok new_pos ↦ (ok new_pos, record z { pos = new_pos })
  | err e ↦ (err e, z)
]

-- A zero reader as the reader of a section.
pub zero_reader : {W : Type 0} → ℕ → Reader W
unfolding zero_read zero_seek
zero_reader size off want w =
    let (sought, z) = zero_seek (record { size = size; pos = 0 }) off 0 in
    let ((bytes, e), z') = zero_read z want in
    (elim sought [ ok _ ↦ chunk bytes e | err x ↦ seek_error x ], w)

-- bytes.NewReader(header): a read past the end gives EOF.
pub bytes_reader : {W : Type 0} → List ℕ → Reader W
bytes_reader bytes off want w = (
  if leb (length bytes) off then chunk [] (some eof) else chunk (take want (drop off bytes)) none,
  w,
)

module _ (W : Type 0) where
  pub record Section : Type 0 where
    pub offset : ℕ
    pub len : ℕ
    pub reader : Reader W

  pub record TarEntry : Type 0 where
    pub name : String
    pub size : ℕ
    pub mode : ℕ
    pub mod_time : ℕ
    pub reader : Reader W

  pub record TarReader : Type 0 where
    pub sections : List Section
    pub total : ℕ
    pub pos : ℕ

  -- The variables `sections` and `offset` of the constructor.
  abbrev pub Layout : Type 0
  Layout = List Section × ℕ

  -- What a call of `Read` returns (the bytes put in the buffer, and the error), and the state
  -- after it.
  abbrev pub ReadResult : Type 0
  ReadResult = (List ℕ × Option IoError) × TarReader × W

  -- What follows one read of a section: whether the loop goes on.
  pub data Step : Type 0 where
    continue : List ℕ → TarReader → W → Step
    done : ReadResult → Step

-- The padding `(512 - (size % 512)) % 512`, with Go's remainder, which has the sign of `size`.
pub padding : ℕ → ℕ
padding size = if is_negative size then (modulus - size) % 512 else (512 - size % 512) % 512

abbrev pub HeaderWriter : Type 0
HeaderWriter = String → ℕ → ℕ → ℕ → Result (List ℕ)

pub build_tar_header_bytes : HeaderWriter → String → ℕ → ℕ → ℕ → Result (List ℕ)
build_tar_header_bytes write_header name size mode mod_time =
    elim (write_header name size mode mod_time) [
      | ok bytes ↦ if length bytes == 512 then ok bytes else err bad_header
      | err e ↦ err e
    ]

-- `Read` asks a section for no more than what is left of it and of the buffer.
pub to_read : ℕ → ℕ → ℕ
to_read remaining want = if lt64 remaining want then remaining else want

module _ {W : Type 0} where
  pub append_section : Layout W → ℕ → Reader W → Layout W
  append_section (sections, offset) len reader =
      (sections ++ record { offset = offset; len = len; reader = reader } ∷ [], add64 offset len)

  -- `if size > 0 { … }`: a section for a content or a padding that is not empty.
  pub append_if_positive : Layout W → ℕ → Reader W → Layout W
  append_if_positive l len reader = if is_positive len then append_section l len reader else l

  -- One round of the loop over the entries.
  pub add_entry : HeaderWriter → Layout W → TarEntry W → Result (Layout W)
  unfolding build_tar_header_bytes
  add_entry write_header l e =
      elim (build_tar_header_bytes write_header e.name e.size e.mode e.mod_time) [
        | ok header ↦
            let l₁ = append_section l (length header) (bytes_reader header) in
            let l₂ = append_if_positive l₁ e.size e.reader in
            ok (append_if_positive l₂ (padding e.size) (zero_reader (padding e.size)))
        | err x ↦ err x
      ]

  pub add_entries : HeaderWriter → Layout W → List (TarEntry W) → Result (Layout W)
  add_entries write_header l [] = ok l
  add_entries write_header l (e ∷ es) = elim (add_entry write_header l e) [
    | ok l' ↦ add_entries write_header l' es
    | err x ↦ err x
  ]

  pub new_seekable_tar_reader : HeaderWriter → List (TarEntry W) → Result (TarReader W × ℕ)
  new_seekable_tar_reader write_header entries = elim (add_entries write_header ([], 0) entries) [
    | ok l ↦
        let (sections, offset) = append_section l 1024 (zero_reader 1024) in
        ok (record { sections = sections; total = offset; pos = 0 }, offset)
    | err x ↦ err x
  ]

  pub find_section : List (Section W) → ℕ → Option (Section W)
  find_section [] pos = none
  find_section (s ∷ ss) pos =
      if not (lt64 pos s.offset) && lt64 pos (add64 s.offset s.len)
      then some s
      else find_section ss pos

  pub after_chunk : TarReader W → List ℕ → Outcome × W → Step W
  after_chunk r got (seek_error e, w) = done ((got, some e), r, w)
  after_chunk r got (chunk bytes e, w) =
      let got' = got ++ bytes in
      let r' = record r { pos = add64 r.pos (length bytes) } in
      elim e [
        | none ↦
            if length bytes == 0 then done ((got', some no_progress), r', w) else continue got' r' w
        | some eof ↦ continue got' r' w
        | some x ↦ done ((got', some x), r', w)
      ]

  -- The body of the loop of `Read`.
  pub read_step : TarReader W → ℕ → List ℕ → W → Step W
  unfolding after_chunk find_section to_read
  read_step r len got w = elim (find_section r.sections r.pos) [
    | none ↦ done ((got, some eof), r, w)
    | some s ↦
        let rel_offset = sub64 r.pos s.offset in
        let remaining = sub64 s.len rel_offset in
        after_chunk r got (s.reader rel_offset (to_read remaining (len - length got)) w)
  ]

  pub read_loop : ℕ → TarReader W → ℕ → List ℕ → W → Option (ReadResult W)
  unfolding read_step
  read_loop zero r len got w = none
  read_loop (suc fuel) r len got w =
      if ltb (length got) len && lt64 r.pos r.total
      then elim (read_step r len got w) [
        | continue got' r' w' ↦ read_loop fuel r' len got' w'
        | done x ↦ some x
      ]
      else if length got == 0 && not (lt64 r.pos r.total)
      then some (([], some eof), r, w)
      else some ((got, none), r, w)

  -- `Read(p)` with len(p) = len; `none` when the fuel runs out.
  pub read : ℕ → TarReader W → ℕ → W → Option (ReadResult W)
  unfolding read_loop
  read fuel r len w =
      if not (lt64 r.pos r.total) then some (([], some eof), r, w) else read_loop fuel r len [] w

  pub seek : TarReader W → ℕ → ℕ → Result ℕ × TarReader W
  unfolding seek_position
  seek r offset whence = elim (seek_position r.total r.pos offset whence) [
    | ok new_pos ↦ (ok new_pos, record r { pos = new_pos })
    | err e ↦ (err e, r)
  ]
