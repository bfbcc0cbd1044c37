-- ===== src/Settings/Bounds.antt =====
-- The block size that the command line of settings.rs lets through.
use hash_index_kv_store.Prelude.{
  ℕ, ◌*◌, ◌^◌, ◌≤◌, ◌<◌, ◌≡◌, refl, sym, ap, ◌∙◌, Bool-cases, Option-cases, inl, inr, Option, some,
  List, [], ◌∷◌, arith,
}
use mathlib.Core.Path.{subst}
use hash_index_kv_store.Io.{Result, ok, err, panic, ◌>>=◌, >>=-ok}
use hash_index_kv_store.Io.Text.{parse_u64}
use hash_index_kv_store.Settings.{Text, Settings}
use hash_index_kv_store.Settings.Args.{
  CliOption, option_names, option_in, expect, in_range, defaults, apply_option, parse_args,
  asks_help, get_from_args,
}

IsBounded : ℕ → Type 0
IsBounded kb = (1 ≤ kb) × (kb ≤ 1024)

in_range-IsBounded : (n kb : ℕ) → in_range n ≡ ok kb → IsBounded kb
unfolding IsBounded
in_range-IsBounded n kb e = ground arith

module _ {F32 : Type 0} where
  -- A setting other than the block size.
  other {ℓ} :
      {A : Type ℓ}
      → (r : Result A) (f : A → Settings F32) (kb : ℕ) (s' : Settings F32)
      → ((a : A) → (f a).block_size_kb ≡ kb)
      → (r >>= λ a. ok (f a)) ≡ ok s'
      → IsBounded kb
      → IsBounded s'.block_size_kb
  other (ok a) f kb s' same e b =
      let q : f a ≡ s' = cc in subst IsBounded (sym (same a) ∙ ap (λ z. z.block_size_kb) q) b
  other (err kind) f kb s' same e b = cc
  other panic f kb s' same e b = cc

  module _ (parse_addr : Text → Option Text) (parse_f32 : Text → Option F32)
      (zero_ratio : F32) where
    apply_option-IsBounded :
        (option : CliOption) (value : Text) (s s' : Settings F32)
        → apply_option parse_addr parse_f32 zero_ratio option value s ≡ ok s'
        → IsBounded s.block_size_kb
        → IsBounded s'.block_size_kb
    unfolding apply_option
    apply_option-IsBounded CliOption.tcp value s s' e b = other _ _ _ s' (λ a. refl) e b
    apply_option-IsBounded CliOption.name value s s' e b =
        other (ok value) (λ v. record s { db_name = v }) _ s' (λ a. refl) e b
    apply_option-IsBounded CliOption.max_segments_bytes value s s' e b =
        other _ _ _ s' (λ a. refl) e b
    apply_option-IsBounded CliOption.fsync_interval value s s' e b = other _ _ _ s' (λ a. refl) e b
    apply_option-IsBounded CliOption.engine_type value s s' e b = other _ _ _ s' (λ a. refl) e b
    apply_option-IsBounded CliOption.compaction_ratio value s s' e b =
        other _ _ _ s' (λ a. refl) e b
    apply_option-IsBounded CliOption.compaction_max_segments value s s' e b =
        other _ _ _ s' (λ a. refl) e b
    apply_option-IsBounded CliOption.strategy value s s' e b = other _ _ _ s' (λ a. refl) e b
    apply_option-IsBounded CliOption.num_levels value s s' e b = other _ _ _ s' (λ a. refl) e b
    apply_option-IsBounded CliOption.l0_threshold value s s' e b = other _ _ _ s' (λ a. refl) e b
    apply_option-IsBounded CliOption.l1_max_bytes value s s' e b = other _ _ _ s' (λ a. refl) e b
    apply_option-IsBounded CliOption.block_size value s s' e b =
        let (n, parsed, next) = >>=-ok (expect (parse_u64 value)) _ e in
        let (kb, within, made) = >>=-ok (in_range n) _ next in
        let q : record s { block_size_kb = kb } ≡ s' = cc in
        subst IsBounded (ap (λ z. z.block_size_kb) q) (in_range-IsBounded n kb within)
    apply_option-IsBounded CliOption.compression value s s' e b = other _ _ _ s' (λ a. refl) e b
    apply_option-IsBounded CliOption.read_timeout value s s' e b = other _ _ _ s' (λ a. refl) e b
    apply_option-IsBounded CliOption.connections value s s' e b = other _ _ _ s' (λ a. refl) e b
    apply_option-IsBounded CliOption.worker_count value s s' e b = other _ _ _ s' (λ a. refl) e b

    parse_args-IsBounded :
        (args : List Text) (s s' : Settings F32)
        → parse_args parse_addr parse_f32 zero_ratio args s ≡ ok s'
        → IsBounded s.block_size_kb
        → IsBounded s'.block_size_kb
    unfolding parse_args
    parse_args-IsBounded [] s s' e b =
        let q : s ≡ s' = cc in subst IsBounded (ap (λ z. z.block_size_kb) q) b
    parse_args-IsBounded (arg ∷ []) s s' e b =
        let q : s ≡ s' = cc in subst IsBounded (ap (λ z. z.block_size_kb) q) b
    parse_args-IsBounded (arg ∷ value ∷ args) s s' e b =
        elim (Option-cases (option_in arg option_names)) [
          | inl unknown ↦ parse_args-IsBounded (value ∷ args) s s' (rw (unknown, parse_args) at e) b
          | inr (option, known) ↦
              let (s₁, applied, next) =
                >>=-ok (apply_option parse_addr parse_f32 zero_ratio option value s) _
                  (rw (known, parse_args) at e) in
              parse_args-IsBounded args s₁ s' next
                (apply_option-IsBounded option value s s₁ applied b)
        ]

    -- Settings that `get_from_args` returns, whatever the arguments are, have a block size of at least one KiB,
    -- whose bytes, as the engine is given them, are fewer than 512 MiB.
    pub get_from_args-block_size :
        (args : List Text) (s : Settings F32)
        → get_from_args parse_addr parse_f32 zero_ratio args ≡ ok (some s)
        → (1 ≤ s.block_size_kb) × (s.block_size_kb * 1024 < 2 ^ 29)
    unfolding get_from_args IsBounded defaults
    get_from_args-block_size [] s e = cc
    get_from_args-block_size (program ∷ []) s e = cc
    get_from_args-block_size (program ∷ path ∷ args) s e =
        elim (Bool-cases (asks_help parse_addr parse_f32 zero_ratio (program ∷ path ∷ args))) [
          | inl help ↦ cc (rw (help, get_from_args) at e)
          | inr run ↦
              let (s₁, parsed, made) =
                >>=-ok
                  (parse_args parse_addr parse_f32 zero_ratio args
                    (defaults parse_addr parse_f32 zero_ratio path))
                  _ (rw (run, get_from_args) at e) in
              let q : s₁ ≡ s = cc in
              let b = parse_args-IsBounded args _ s₁ parsed (omega arith, omega arith) in
              let b' = subst (λ z. IsBounded z.block_size_kb) q b in (b'.0, omega (arith, b'.1))
        ]
