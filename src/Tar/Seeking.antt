-- ===== src/Tar/Seeking.antt =====
-- `Seek`, a range of the archive, the end of the archive, and a reader that ends too early.
use migration_planner.Prelude.{
  ℕ, zero, suc, ◌+◌, ◌-◌, ◌≤◌, ◌<◌, ◌≡◌, refl, ◌∙◌, ap, true, ltb, leb, if◌then◌else◌, Option, none,
  some, List, [], arith, length, take, drop, min, modulus, half_modulus, add64, sub64, lt64,
}
use migration_planner.Tar.{
  Result, ok, err, eof, negative_position, invalid_whence, chunk, Section, TarReader, continue,
  find_section, after_chunk, read_step, to_read, read_loop, read, seek,
}
use migration_planner.Tar.Reading.{IsArchive, read_step_found, read_loop_continue, read-exact}

-- The position that a whence counts from.
unfoldable pub base_of : {W : Type 0} → TarReader W → ℕ → Option ℕ
base_of r zero = some 0
base_of r (suc zero) = some r.pos
base_of r (suc (suc zero)) = some r.total
base_of r (suc (suc (suc n))) = none

-- The sum of a position and of an offset, which is negative from 2 ^ 63 on, as a position.
unfoldable pub moved_by : ℕ → ℕ → Option ℕ
moved_by offset base =
    if ltb offset half_modulus
    then if ltb (base + offset) half_modulus then some (base + offset) else none
    else if leb modulus (base + offset)
    then some (base + offset - modulus)
    else none

unfoldable pub target : ℕ → Option ℕ → Result ℕ
unfolding moved_by
target offset none = err invalid_whence
target offset (some base) = elim (moved_by offset base) [
  | none ↦ err negative_position
  | some n ↦ ok n
]

abbrev pub at_target : {W : Type 0} → TarReader W → Result ℕ → TarReader W
at_target r (ok n) = record r { pos = n }
at_target r (err e) = r

module _ {W : Type 0} where
  -- `Seek` adds the offset, which may be negative, to the start, to the position or to the end,
  -- and moves there if the sum is in 0 … 2 ^ 63 - 1; else it refuses, and it refuses every other
  -- whence; refused, it leaves the reader as it was. The position and the total are below 2 ^ 63.
  seek-target :
      (r : TarReader W) (offset whence : ℕ)
      → r.pos < half_modulus
      → r.total < half_modulus
      → offset < modulus
      → seek r offset whence
        ≡ (target offset (base_of r whence), at_target r (target offset (base_of r whence)))
  unfolding seek base_of target moved_by
  seek-target r offset zero h k l = ground arith
  seek-target r offset (suc zero) h k l = ground arith
  seek-target r offset (suc (suc zero)) h k l = ground arith
  seek-target r offset (suc (suc (suc n))) h k l = ground arith

  seek_start :
      (r : TarReader W) (off : ℕ)
      → off < half_modulus
      → seek r off 0 ≡ (ok off, record r { pos = off })
  unfolding seek
  seek_start r off h = ground arith

  -- A range request: after a seek to `off` inside the archive a read of `len` bytes gives the
  -- bytes of the archive from `off` on, as many as there are.
  pub seek-read :
      (fuel : ℕ) (r : TarReader W) (bytes : List ℕ) (off len : ℕ) (w : W)
      → IsArchive r bytes
      → len < half_modulus
      → len < fuel
      → off < length bytes
      → (w' : W) × (read fuel (seek r off 0).1 len w
          ≡ some (
            (take len (drop off bytes), none),
            record r { pos = off + min len (length bytes - off) },
            w',
          ))
  seek-read fuel r bytes off len w a small f h =
      let big = a.small in
      rw (seek_start r off (omega arith)) (
        read-exact fuel (record r { pos = off }) bytes len w
          (record { backs = a.backs; total_eq = a.total_eq; small = a.small }) small f h)

  -- At or past the end a read gives EOF and moves nothing.
  pub read-eof :
      (fuel : ℕ) (r : TarReader W) (bytes : List ℕ) (len : ℕ) (w : W)
      → IsArchive r bytes
      → length bytes ≤ r.pos
      → r.pos < half_modulus
      → read fuel r len w ≡ some (([], some eof), r, w)
  unfolding read
  read-eof fuel r bytes len w a h k = ground (arith, a.total_eq, a.small)

  step_stuck :
      (r : TarReader W) (s : Section W) (len : ℕ) (w : W)
      → find_section r.sections r.pos ≡ some s
      → ((want : ℕ) → s.reader (sub64 r.pos s.offset) want w ≡ (chunk [] (some eof), w))
      → r.pos < half_modulus
      → read_step r len [] w ≡ continue [] r w
  unfolding after_chunk
  step_stuck r s len w found ends small =
      let d = sub64 r.pos s.offset in
      let t = to_read (sub64 s.len d) (len - 0) in
      let still : add64 r.pos 0 ≡ r.pos = omega arith in
      read_step_found r len [] w s d t found refl refl
      ∙ ap (after_chunk r []) (ends t)
      ∙ ap (λ n. continue [] (record r { pos = n }) w) still

  read_loop_stuck :
      (fuel : ℕ) (r : TarReader W) (s : Section W) (len : ℕ) (w : W)
      → find_section r.sections r.pos ≡ some s
      → ((want : ℕ) → s.reader (sub64 r.pos s.offset) want w ≡ (chunk [] (some eof), w))
      → r.pos < r.total
      → r.total < half_modulus
      → 0 < len
      → read_loop fuel r len [] w ≡ none
  unfolding read_loop
  read_loop_stuck zero r s len w found ends p q h = refl
  read_loop_stuck (suc fuel) r s len w found ends p q h =
      read_loop_continue fuel r r len [] [] w w h p q
        (step_stuck r s len w found ends (omega arith))
      ∙ read_loop_stuck fuel r s len w found ends p q h

  -- Where the reader of the section at the position is at its end, although the section is not
  -- (a content shorter than its entry's size), `Read` never returns: no fuel is enough.
  pub read_never_returns :
      (fuel : ℕ) (r : TarReader W) (s : Section W) (len : ℕ) (w : W)
      → find_section r.sections r.pos ≡ some s
      → ((want : ℕ) → s.reader (sub64 r.pos s.offset) want w ≡ (chunk [] (some eof), w))
      → r.pos < r.total
      → r.total < half_modulus
      → 0 < len
      → read fuel r len w ≡ none
  unfolding read
  read_never_returns fuel r s len w found ends p q h =
      let inside : lt64 r.pos r.total ≡ true = ground arith in
      rw inside (read_loop_stuck fuel r s len w found ends p q h)
