-- ===== src/Tar/Reading.antt =====
-- `Read` over sections that lie end to end returns the bytes of the archive at the position.
use mathlib.Core.List.{append_assoc, append-nil}
use native.Mathlib.Decide.{dec_lt}
use native.Mathlib.Nat.{zero-add}
use migration_planner.Prelude.{
  ℕ, zero, suc, ◌+◌, ◌-◌, ◌≤◌, ◌<◌, ◌≡◌, refl, sym, ◌∙◌, ap, ◌⊎◌, inl, inr, true, Option, none,
  some, List, [], ◌++◌, arith, length, take, drop, min, half_modulus, sub64, lt64, length-append,
  length-take, length-drop, take-add, drop-add, nil_of_length,
}
use migration_planner.Tar.{
  IoError, eof, Outcome, chunk, Section, TarReader, ReadResult, Step, continue, after_chunk,
  find_section, to_read, read_step, read_loop, read,
}
use migration_planner.Tar.Sections.{Served, Backs, Found, find_section-Found}

to_read_lem : (a b : ℕ) → a < half_modulus → b < half_modulus → to_read a b ≡ min a b
unfolding to_read
to_read_lem a b h k = ground arith

joined :
    (bytes got : List ℕ) (pos k m : ℕ)
    → k ≤ m
    → (got ++ take k (drop pos bytes)) ++ take (m - k) (drop (pos + k) bytes)
      ≡ got ++ take m (drop pos bytes)
joined bytes got pos k m h =
    rw (append_assoc, drop-add pos k bytes)
      (ap (λ xs. got ++ xs)
        (sym (take-add k (m - k) (drop pos bytes))
          ∙ ap (λ n. take n (drop pos bytes)) (omega arith)))

module _ {W : Type 0} where
  -- The reader's sections hold `bytes`, and the whole fits int64.
  pub record IsArchive (r : TarReader W) (bytes : List ℕ) : Type 0 where
    pub backs : Backs 0 r.sections bytes
    pub total_eq : r.total ≡ length bytes
    pub small : length bytes < half_modulus

  after_chunk_served :
      (r : TarReader W) (got bytes : List ℕ) (e : Option IoError) (o : Outcome × W)
      → (e ≡ none) ⊎ (e ≡ some eof)
      → 0 < length bytes
      → r.pos + length bytes < half_modulus
      → o.0 ≡ chunk bytes e
      → after_chunk r got o ≡ continue (got ++ bytes) (record r { pos = r.pos + length bytes }) o.1
  unfolding after_chunk
  after_chunk_served r got bytes e (o, w) (inl h) p q x = ground arith
  after_chunk_served r got bytes e (o, w) (inr h) p q x = ground arith

  -- One round of the loop: some bytes that stand at the position are appended.
  record Progress (r : TarReader W) (len : ℕ) (got bytes : List ℕ) (st : Step W) : Type 0 where
    k : ℕ
    w' : W
    some_read : 0 < k
    in_buffer : length got + k ≤ len
    in_archive : r.pos + k ≤ length bytes
    step_eq : st ≡ continue (got ++ take k (drop r.pos bytes)) (record r { pos = r.pos + k }) w'

  pub read_step_found :
      (r : TarReader W) (len : ℕ) (got : List ℕ) (w : W) (s : Section W) (d t : ℕ)
      → find_section r.sections r.pos ≡ some s
      → sub64 r.pos s.offset ≡ d
      → to_read (sub64 s.len d) (len - length got) ≡ t
      → read_step r len got w ≡ after_chunk r got (s.reader d t w)
  unfolding read_step
  read_step_found r len got w s d t found at size = rw (found, read_step) (rw at (rw size))

  step-Served :
      (r : TarReader W) (bytes : List ℕ) (len : ℕ) (got : List ℕ) (w : W)
      → (f : Found r.sections r.pos r.pos bytes) → length bytes < half_modulus
      → len < half_modulus
      → length got < len
      → (t : ℕ) → t ≡ min (length f.content - f.d) (len - length got)
      → Served f.content f.d t (f.s.reader f.d t w).0
      → Progress r len got bytes (read_step r len got w)
  step-Served r bytes len got w f small room h t te (k, e, pos, le, clean, eq) =
      let piece = take k (drop r.pos bytes) in
      let same = f.agrees k (omega arith) in
      let size : length piece ≡ k =
        omega (arith, length-take k (drop r.pos bytes), length-drop r.pos bytes, f.fits) in
      let asked : to_read (sub64 f.s.len f.d) (len - length got) ≡ t =
        omega
          (arith, to_read_lem (sub64 f.s.len f.d) (len - length got) (omega arith) (omega arith)) in
      record {
        k = k;
        w' = (f.s.reader f.d t w).1;
        some_read = pos;
        in_buffer = omega arith;
        in_archive = omega (arith, f.fits);
        step_eq =
            read_step_found r len got w f.s f.d t f.found (omega arith) asked
            ∙ after_chunk_served r got piece e (f.s.reader f.d t w) clean (omega arith)
                (omega (arith, f.fits)) (eq ∙ ap (λ x. chunk x e) same)
            ∙ ap
                (λ n. continue (got ++ piece) (record r { pos = r.pos + n }) (f.s.reader f.d t w).1)
                size;
      }

  read_step-Progress :
      (r : TarReader W) (bytes : List ℕ) (len : ℕ) (got : List ℕ) (w : W)
      → IsArchive r bytes
      → len < half_modulus
      → length got < len
      → r.pos < length bytes
      → Progress r len got bytes (read_step r len got w)
  read_step-Progress r bytes len got w a small h p =
      let f : Found r.sections r.pos r.pos bytes =
        rw zero-add at
          (find_section-Found 0 r.pos r.sections bytes a.backs p (omega (arith, a.small))) in
      let t = min (length f.content - f.d) (len - length got) in
      step-Served r bytes len got w f a.small small h t refl
        (f.serves.at f.d t w f.inside (omega (arith, f.inside)) (omega arith))

  pub read_loop_continue :
      (fuel : ℕ) (r r' : TarReader W) (len : ℕ) (got got' : List ℕ) (w w' : W)
      → length got < len
      → r.pos < r.total
      → r.total < half_modulus
      → read_step r len got w ≡ continue got' r' w'
      → read_loop (suc fuel) r len got w ≡ read_loop fuel r' len got' w'
  unfolding read_loop
  read_loop_continue fuel r r' len got got' w w' h p small e = ground arith

  read_loop_stop :
      (fuel : ℕ) (r : TarReader W) (len : ℕ) (got : List ℕ) (w : W)
      → (len ≤ length got) ⊎ (r.total ≤ r.pos)
      → (0 < length got) ⊎ (r.pos < r.total)
      → r.total < half_modulus
      → r.pos < half_modulus
      → read_loop (suc fuel) r len got w ≡ some ((got, none), r, w)
  unfolding read_loop
  read_loop_stop fuel r len got w h p small small' = ground arith

  -- What `read_loop` returns when `m` bytes of the buffer are still empty.
  abbrev pub Filled : TarReader W → List ℕ → List ℕ → ℕ → Option (ReadResult W) → Type 0
  Filled r bytes got m result =
      (w' : W) × (result
        ≡ some (
          (got ++ take m (drop r.pos bytes), none),
          record r { pos = r.pos + min m (length bytes - r.pos) },
          w',
        ))

  stopped :
      (r : TarReader W) (bytes got : List ℕ) (m : ℕ) (w : W) (result : Option (ReadResult W))
      → (m ≡ 0) ⊎ (length bytes ≤ r.pos)
      → result ≡ some ((got, none), r, w)
      → Filled r bytes got m result
  stopped r bytes got m w result h e =
      let nothing : take m (drop r.pos bytes) ≡ [] =
        nil_of_length (take m (drop r.pos bytes))
          (omega (arith, length-take m (drop r.pos bytes), length-drop r.pos bytes)) in
      let unmoved : r.pos ≡ r.pos + min m (length bytes - r.pos) = omega arith in
      let same : got ≡ got ++ take m (drop r.pos bytes) =
        sym (ap (λ xs. got ++ xs) nothing ∙ append-nil got) in
      (
        w,
        e
            ∙ ap {B = Option (ReadResult W)} (λ xs. some ((xs, none), r, w)) same
            ∙ ap {B = Option (ReadResult W)}
                (λ n. some ((got ++ take m (drop r.pos bytes), none), record r { pos = n }, w))
                unmoved,
      )

  -- One round that reads `k` bytes, before a loop that fills the rest.
  Filled-after :
      (r : TarReader W) (bytes got : List ℕ) (k m : ℕ) (result : Option (ReadResult W))
      → k ≤ m
      → r.pos + k ≤ length bytes
      → Filled
          (record r { pos = r.pos + k })
          bytes
          (got ++ take k (drop r.pos bytes))
          (m - k)
          result
      → Filled r bytes got m result
  Filled-after r bytes got k m result h p (w', e) = (
    w',
    e
        ∙ ap {B = Option (ReadResult W)}
            (λ xs. some (
              (xs, none),
              record r { pos = r.pos + k + min (m - k) (length bytes - (r.pos + k)) },
              w',
            ))
            (joined bytes got r.pos k m h)
        ∙ ap {B = Option (ReadResult W)}
            (λ n. some ((got ++ take m (drop r.pos bytes), none), record r { pos = n }, w'))
            (omega arith),
  )

  read_loop-Filled :
      (fuel : ℕ) (r : TarReader W) (bytes : List ℕ) (len m : ℕ) (got : List ℕ) (w : W)
      → IsArchive r bytes
      → len < half_modulus
      → length got + m ≡ len
      → m < fuel
      → r.pos ≤ length bytes
      → (0 < length got) ⊎ (r.pos < r.total)
      → Filled r bytes got m (read_loop fuel r len got w)
  read_loop-Filled zero r bytes len m got w a small e f p q = absurd (omega arith)
  read_loop-Filled (suc fuel) r bytes len m got w a small e f p q =
      let big = a.small in
      let size = a.total_eq in
      elim (dec_lt 0 m) [
        | yes room ↦ elim (dec_lt r.pos (length bytes)) [
          | yes more ↦
              let go = read_step-Progress r bytes len got w a small (omega arith) more in
              let piece = take go.k (drop r.pos bytes) in
              let read : length piece ≡ go.k = omega (
                arith,
                go.in_archive,
                length-take go.k (drop r.pos bytes),
                length-drop r.pos bytes,
              ) in
              let rest =
                read_loop-Filled fuel (record r { pos = r.pos + go.k }) bytes len (m - go.k)
                  (got ++ piece) go.w' (record { backs = a.backs; total_eq = size; small = big })
                  small (omega (arith, length-append got piece, go.in_buffer))
                  (omega (arith, go.some_read)) go.in_archive
                  (inl (omega (arith, length-append got piece, go.some_read))) in
              Filled-after r bytes got go.k m (read_loop (suc fuel) r len got w)
                (omega (arith, go.in_buffer)) go.in_archive
                (
                  rest.0,
                  read_loop_continue fuel r (record r { pos = r.pos + go.k }) len got (got ++ piece)
                        w go.w' (omega arith) (omega arith) (omega arith) go.step_eq
                      ∙ rest.1,
                )
          | no end ↦
              stopped r bytes got m w (read_loop (suc fuel) r len got w) (inr (omega arith))
                (read_loop_stop fuel r len got w (inr (omega arith)) q (omega arith) (omega arith))
        ]
        | no full ↦
            stopped r bytes got m w (read_loop (suc fuel) r len got w) (inl (omega arith))
              (read_loop_stop fuel r len got w (inl (omega arith)) q (omega arith) (omega arith))
      ]

  -- Read(p) with len(p) = len, at a position inside the archive: it returns without an error, and
  -- gives min len (what is left) bytes, those of the archive at the position, and moves the
  -- position past them. Any fuel above len is enough.
  pub read-exact :
      (fuel : ℕ) (r : TarReader W) (bytes : List ℕ) (len : ℕ) (w : W)
      → IsArchive r bytes
      → len < half_modulus
      → len < fuel
      → r.pos < length bytes
      → (w' : W) × (read fuel r len w
          ≡ some (
            (take len (drop r.pos bytes), none),
            record r { pos = r.pos + min len (length bytes - r.pos) },
            w',
          ))
  unfolding read
  read-exact fuel r bytes len w a small f p =
      let big = a.small in
      let size = a.total_eq in
      let inside : lt64 r.pos r.total ≡ true = ground arith in
      rw inside (
        read_loop-Filled fuel r bytes len len [] w a small (omega arith) f (omega arith)
          (inr (omega arith)))
