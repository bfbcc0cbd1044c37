-- ===== src/Lz77/Search.antt =====
-- What `find_longest_match` of lz77.rs returns, whatever the tables hold.
use hash_index_kv_store.Prelude.{
  ℕ, zero, suc, ◌-◌, ◌≤◌, ◌<◌, ◌==◌, ◌≡◌, refl, ap, ◌∙◌, ◌⊎◌, inl, inr, false, Option, none, some,
  List, [], ◌∷◌, length, get_elem?, take, drop, arith, ltb, leb, Bool-cases, Option-cases, ==_iff,
  sym, if◌then◌else◌,
}
use hash_index_kv_store.Io.{Result, ok, ◌>>=◌}
use hash_index_kv_store.Lz77.{
  u32_max, lookahead_window, search_window, max_chain, Match, Tables, common_prefix, link,
  chain_loop, find_longest_match,
}

-- `n` bytes from `a` on are those from `b` on.
abbrev pub Agree : List ℕ → ℕ → ℕ → ℕ → Type 0
Agree bytes zero a b = Unit
Agree bytes (suc n) a b =
    (x : ℕ) × (get_elem? bytes a ≡ some x)
    × (get_elem? bytes b ≡ some x)
    × Agree bytes n (suc a) (suc b)

drop_cons :
    (n : ℕ) (l : List ℕ) (x : ℕ) (xs : List ℕ)
    → drop n l ≡ x ∷ xs
    → (get_elem? l n ≡ some x) × (drop (suc n) l ≡ xs)
drop_cons zero [] x xs e = cc
drop_cons zero (y ∷ l) x xs e = ground arith
drop_cons (suc n) [] x xs e = cc
drop_cons (suc n) (y ∷ l) x xs e = drop_cons n l x xs e

common_prefix-Agree :
    (bytes xs ys : List ℕ) (w a b : ℕ)
    → drop a bytes ≡ xs
    → drop b bytes ≡ ys
    → Agree bytes (common_prefix xs (take w ys)) a b
unfolding common_prefix
common_prefix-Agree bytes [] ys w a b p q = tt
common_prefix-Agree bytes (x ∷ xs) ys zero a b p q = tt
common_prefix-Agree bytes (x ∷ xs) [] (suc w) a b p q = tt
common_prefix-Agree bytes (x ∷ xs) (y ∷ ys) (suc w) a b p q = elim (Bool-cases (x == y)) [
  | inr differ ↦ rw differ tt
  | inl same ↦
      let (at_a, from_a) = drop_cons a bytes x xs p in
      let (at_b, from_b) = drop_cons b bytes y ys q in
      rw same (
        x,
        at_a,
        at_b ∙ ap some (sym ((==_iff x y).0 same)),
        common_prefix-Agree bytes xs ys w (suc a) (suc b) from_a from_b,
      )
]

common_prefix-le : (xs ys : List ℕ) (w : ℕ) → common_prefix xs (take w ys) ≤ w
unfolding common_prefix
common_prefix-le [] ys w = omega arith
common_prefix-le (x ∷ xs) ys zero = omega arith
common_prefix-le (x ∷ xs) [] (suc w) = omega arith
common_prefix-le (x ∷ xs) (y ∷ ys) (suc w) = ground (arith, common_prefix-le xs ys w)

sub_sub : (pos c : ℕ) → c < pos → pos - (pos - c) ≡ c
sub_sub pos c h = omega arith

module _ (bytes : List ℕ) where
  -- Every link leads to a position of the data.
  pub record IsLinked (t : Tables) : Type 0 where
    pub heads : (h : ℕ) → (t.table h ≡ u32_max) ⊎ (t.table h < length bytes)
    pub links : (p q : ℕ) → t.chain p ≡ some q → q < length bytes

  -- A match that `decode` can copy at `pos`.
  pub record IsMatch (pos offset len : ℕ) : Type 0 where
    pub nonzero : 1 ≤ offset
    pub behind : offset ≤ pos
    pub bounded : len ≤ lookahead_window
    pub agrees : Agree bytes len (pos - offset) pos

  abbrev IsBest : ℕ → ℕ × ℕ → Type 0
  IsBest pos best = (best.1 < 3) ⊎ IsMatch pos best.0 best.1

  link_ok : (t : Tables) (c : ℕ) → c < length bytes → link bytes t c ≡ ok (t.chain c)
  unfolding link
  link_ok t c h = ground arith

  candidate-IsMatch :
      (pos c : ℕ)
      → c < pos
      → IsMatch pos
          (pos - c)
          (common_prefix (drop c bytes) (take lookahead_window (drop pos bytes)))
  candidate-IsMatch pos c h = record {
    nonzero = omega arith;
    behind = omega arith;
    bounded = common_prefix-le (drop c bytes) (drop pos bytes) lookahead_window;
    agrees = rw (sub_sub pos c h) (
        common_prefix-Agree bytes (drop c bytes) (drop pos bytes) lookahead_window c pos refl refl);
  }

  better :
      (pos c bo bl len : ℕ)
      → IsBest pos (bo, bl)
      → IsMatch pos (pos - c) len
      → IsBest pos (if ltb bl len then pos - c else bo, if ltb bl len then len else bl)
  better pos c bo bl len b m = elim (Bool-cases (ltb bl len)) [
    | inl longer ↦ rw longer (inr m)
    | inr kept ↦ rw kept b
  ]

  chain_loop-IsBest :
      (t : Tables) (pos left c bo bl : ℕ)
      → IsLinked t
      → c < length bytes
      → IsBest pos (bo, bl)
      → (best : ℕ × ℕ) × (chain_loop bytes t pos left c bo bl ≡ ok best) × IsBest pos best
  unfolding chain_loop
  chain_loop-IsBest t pos zero c bo bl k h b = ((bo, bl), refl, b)
  chain_loop-IsBest t pos (suc left) c bo bl k h b = elim (Bool-cases (leb pos c)) [
    | inl ahead ↦
        rw (ahead, link_ok t c h)
          (elim (Option-cases (t.chain c)) [
            | inl end ↦ rw end ((bo, bl), refl, b)
            | inr (q, e) ↦ rw e (chain_loop-IsBest t pos left q bo bl k (k.links c q e) b)
          ])
    | inr behind ↦ elim (Bool-cases (ltb c (pos - search_window))) [
      | inl far ↦ rw (behind, far) ((bo, bl), refl, b)
      | inr near ↦
          rw (behind, near, link_ok t c h)
            (elim (Option-cases (t.chain c)) [
              | inl end ↦ rw end ((offset', len'), refl, b' behind)
              | inr (q, e) ↦
                  rw e (chain_loop-IsBest t pos left q offset' len' k (k.links c q e) (b' behind))
            ])
    ]
  ]
    where
      len : ℕ
      len = common_prefix (drop c bytes) (take lookahead_window (drop pos bytes))

      offset' : ℕ
      offset' = if ltb bl len then pos - c else bo

      len' : ℕ
      len' = if ltb bl len then len else bl

      b' : leb pos c ≡ false → IsBest pos (offset', len')
      b' behind = better pos c bo bl len b (candidate-IsMatch pos c (ground arith))

  abbrev pub IsFound : ℕ → Result (Option Match) → Type 0
  IsFound pos r =
      (r ≡ ok none) ⊎ ((m : Match) × (r ≡ ok (some m)) × (3 ≤ m.len) × IsMatch pos m.offset m.len)

  accepted :
      (pos : ℕ) (r : Result (ℕ × ℕ)) (best : ℕ × ℕ)
      → r ≡ ok best
      → IsBest pos best
      → IsFound pos (do
        (offset, len) ← r
        if ltb len 3 then ok none else ok (some (record { offset = offset; len = len })))
  accepted pos r (offset, len) e b = elim (Bool-cases (ltb len 3)) [
    | inl short ↦ rw (e, short) (inl refl)
    | inr long ↦
        rw (e, long)
          (inr
            (record { offset = offset; len = len }, refl, ground arith, match_of b (ground arith)))
  ]
    where
      match_of : IsBest pos (offset, len) → 3 ≤ len → IsMatch pos offset len
      match_of (inl short) h = absurd (omega arith)
      match_of (inr m) h = m

  -- If the tables lead only to positions of the data, the search does not panic, and a match that it finds
  -- is of three to 258 bytes, which agree with those from its offset before `pos` on.
  pub find_longest_match-IsFound :
      (t : Tables) (pos hash : ℕ) → IsLinked t → IsFound pos (find_longest_match bytes pos hash t)
  unfolding find_longest_match
  find_longest_match-IsFound t pos hash k =
      elim (Bool-cases (ltb (length (take lookahead_window (drop pos bytes))) 3)) [
        | inl few ↦ rw few (inl refl)
        | inr enough ↦ elim (Bool-cases (t.table hash == u32_max)) [
          | inl none_yet ↦ rw (enough, none_yet) (inl refl)
          | inr some_yet ↦
              let best =
                chain_loop-IsBest t pos max_chain (t.table hash) 0 0 k (first some_yet)
                  (inl (omega arith)) in
              rw (enough, some_yet) (accepted pos _ best.0 best.1 best.2)
        ]
      ]
    where
      first : t.table hash == u32_max ≡ false → t.table hash < length bytes
      first other = elim (k.heads hash) [ inl e ↦ absurd (ground arith) | inr h ↦ h ]
