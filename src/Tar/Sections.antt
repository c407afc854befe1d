-- ===== src/Tar/Sections.antt =====
-- Sections that lie end to end and whose readers serve given bytes; the section of a position.
use mathlib.Core.Path.{subst}
use native.Mathlib.Decide.{dec_lt}
use native.Mathlib.Nat.{add_assoc}
use migration_planner.Prelude.{
  ℕ, ◌+◌, ◌-◌, ◌≤◌, ◌<◌, ◌≡◌, refl, sym, ◌∙◌, ap, ◌⊎◌, inl, Option, none, some, List, [], ◌∷◌, ◌++◌,
  arith, length, take, drop, replicate, half_modulus, length-append, length-drop, length-replicate,
  take-append_le, drop-append_le, drop-append_ge, take-replicate, drop-replicate,
}
use migration_planner.Tar.{
  IoError, eof, Outcome, chunk, Reader, Section, find_section, bytes_reader, zero_reader,
}

-- One read of `want` bytes at `off` gives at least one byte and at most `want`, those that stand
-- there in `content`, with no error or with EOF.
abbrev pub Served : List ℕ → ℕ → ℕ → Outcome → Type 0
Served content off want outcome =
    (k : ℕ) × (e : Option IoError) × (0 < k)
    × (k ≤ want)
    × ((e ≡ none) ⊎ (e ≡ some eof))
    × (outcome ≡ chunk (take k (drop off content)) e)

-- A reader that holds to io.Reader's contract over the bytes of `content`.
pub record Serves {W : Type 0} (content : List ℕ) (r : Reader W) : Type 0 where
  pub at :
      (off want : ℕ) (w : W)
      → off < length content
      → 0 < want
      → want ≤ length content - off
      → Served content off want (r off want w).0

module _ {W : Type 0} where
  -- The sections lie end to end from `off` on, and hold the bytes.
  abbrev pub Backs : ℕ → List (Section W) → List ℕ → Type 0
  Backs off [] bytes = bytes ≡ []
  Backs off (s ∷ ss) bytes =
      (c : List ℕ) × (rest : List ℕ) × (s.offset ≡ off)
      × (s.len ≡ length c)
      × Serves c s.reader
      × (bytes ≡ c ++ rest)
      × Backs (off + length c) ss rest

  -- A section that holds position `pos`, `d` bytes after its start; its bytes from there on are
  -- those of `bytes` from `i` on.
  pub record Found (secs : List (Section W)) (pos i : ℕ) (bytes : List ℕ) : Type 0 where
    pub s : Section W
    pub content : List ℕ
    pub d : ℕ
    pub found : find_section secs pos ≡ some s
    pub at_pos : s.offset + d ≡ pos
    pub len_eq : s.len ≡ length content
    pub inside : d < length content
    pub serves : Serves content s.reader
    pub fits : i + (length content - d) ≤ length bytes
    pub agrees : (k : ℕ) → k ≤ length content - d → take k (drop d content) ≡ take k (drop i bytes)

  find_head :
      (s : Section W) (ss : List (Section W)) (pos : ℕ)
      → s.offset ≤ pos
      → pos < s.offset + s.len
      → s.offset + s.len < half_modulus
      → find_section (s ∷ ss) pos ≡ some s
  unfolding find_section
  find_head s ss pos h k l = ground arith

  find_tail :
      (s : Section W) (ss : List (Section W)) (pos : ℕ)
      → s.offset + s.len ≤ pos
      → pos < half_modulus
      → find_section (s ∷ ss) pos ≡ find_section ss pos
  unfolding find_section
  find_tail s ss pos h k = ground arith

  -- The two cases below: the position is in the first section, or in a later one.
  Found-head :
      (off i : ℕ) (s : Section W) (ss : List (Section W)) (c rest : List ℕ)
      → s.offset ≡ off
      → s.len ≡ length c
      → Serves c s.reader
      → i < length c
      → off + length (c ++ rest) < half_modulus
      → Found (s ∷ ss) (off + i) i (c ++ rest)
  Found-head off i s ss c rest at len serves h l = record {
    s = s;
    content = c;
    d = i;
    found =
        find_head s ss (off + i) (omega arith) (omega arith) (omega (arith, length-append c rest));
    at_pos = omega arith;
    len_eq = len;
    inside = h;
    serves = serves;
    fits = omega (arith, length-append c rest);
    agrees = λ k hk.
        rw (drop-append_le i c rest (omega arith))
          (sym (take-append_le k (drop i c) rest (omega (arith, length-drop i c))));
  }

  Found-tail :
      (off j : ℕ) (s : Section W) (ss : List (Section W)) (c rest : List ℕ)
      → s.offset ≡ off
      → s.len ≡ length c
      → off + (length c + j) < half_modulus
      → Found ss (off + length c + j) j rest
      → Found (s ∷ ss) (off + (length c + j)) (length c + j) (c ++ rest)
  Found-tail off j s ss c rest at len l f = record {
    s = f.s;
    content = f.content;
    d = f.d;
    found =
        find_tail s ss (off + (length c + j)) (omega arith) l
        ∙ ap (find_section ss) (sym (add_assoc off (length c) j))
        ∙ f.found;
    at_pos = omega (arith, f.at_pos);
    len_eq = f.len_eq;
    inside = f.inside;
    serves = f.serves;
    fits = omega (arith, f.fits, length-append c rest);
    agrees = λ k hk. rw (drop-append_ge j c rest) (f.agrees k hk);
  }

  -- In sections that lie end to end a position below the end is found, in the right section.
  pub find_section-Found :
      (off i : ℕ) (secs : List (Section W)) (bytes : List ℕ)
      → Backs off secs bytes
      → i < length bytes
      → off + length bytes < half_modulus
      → Found secs (off + i) i bytes
  find_section-Found off i [] bytes b h l = absurd (omega (arith, ap length b))
  find_section-Found off i (s ∷ ss) bytes (c, rest, at, len, serves, split, b) h l =
      let size = ap length split ∙ length-append c rest in
      let whole : Found (s ∷ ss) (off + i) i (c ++ rest) = elim (dec_lt i (length c)) [
        | yes here ↦
            Found-head off i s ss c rest at len serves here (omega (arith, length-append c rest))
        | no there ↦
            let e : i ≡ length c + (i - length c) = omega arith in
            rw e (
              Found-tail off (i - length c) s ss c rest at len (omega arith) (
                find_section-Found (off + length c) (i - length c) ss rest b (omega arith)
                  (omega arith)))
      ] in
      subst (Found (s ∷ ss) (off + i) i) (sym split) whole

  -- The readers that the constructor itself makes.
  pub bytes_reader-Serves : (bytes : List ℕ) → Serves bytes (bytes_reader {W = W} bytes)
  unfolding bytes_reader
  bytes_reader-Serves bytes = record {
    at = λ off want w h p q. (want, none, p, omega arith, inl refl, ground arith);
  }

  zero_reader_chunk :
      (n off want : ℕ) (w : W)
      → n < half_modulus
      → off < n
      → want ≤ n - off
      → (zero_reader n off want w).0 ≡ chunk (replicate want 0) none
  unfolding zero_reader
  zero_reader_chunk n off want w h p q = ground arith

  pub zero_reader-Serves :
      (n : ℕ) → n < half_modulus → Serves (replicate n 0) (zero_reader {W = W} n)
  zero_reader-Serves n small = record {
    at = λ off want w h p q.
        let size = length-replicate {A = ℕ} n 0 in
        let zeros : take want (drop off (replicate n 0)) ≡ replicate want 0 =
          rw drop-replicate (take-replicate want (n - off) 0 (omega arith)) in
        (
          want,
          none,
          p,
          omega arith,
          inl refl,
          zero_reader_chunk n off want w small (omega arith) (omega arith)
              ∙ ap (λ bytes. chunk bytes none) (sym zeros),
        );
  }
