-- ===== src/Server/Stats.antt =====
-- The counters of the server: src/stats.rs. An atomic counter is a number below 2 ^ 64; a text is the list of
-- its bytes.
use hash_index_kv_store.Prelude.{ℕ, ◌+◌, ◌%◌, ◌^◌, Bool, true, false, List, [], ◌∷◌, ◌++◌}
use hash_index_kv_store.Io.Text.{decimal}

pub record Stats : Type 0 where
  pub compacting : Bool
  pub compaction_count : ℕ
  pub last_compact_start_ms : ℕ
  pub last_compact_end_ms : ℕ
  pub write_blocked_attempts : ℕ
  pub write_blocked_total_ms : ℕ
  pub reads : ℕ
  pub writes : ℕ
  pub deletes : ℕ
  pub active_connections : ℕ

abbrev pub new : Stats
new = record {
  compacting = false;
  compaction_count = 0;
  last_compact_start_ms = 0;
  last_compact_end_ms = 0;
  write_blocked_attempts = 0;
  write_blocked_total_ms = 0;
  reads = 0;
  writes = 0;
  deletes = 0;
  active_connections = 0;
}

-- `fetch_add` wraps.
abbrev pub fetch_add : ℕ → ℕ → ℕ
fetch_add counter n = (counter + n) % 2 ^ 64

abbrev pub bool_text : Bool → List ℕ
bool_text true = 116 ∷ 114 ∷ 117 ∷ 101 ∷ []
bool_text false = 102 ∷ 97 ∷ 108 ∷ 115 ∷ 101 ∷ []

line : List ℕ → List ℕ → List ℕ → List ℕ
line name value rest = name ++ 61 ∷ value ++ 10 ∷ rest

-- The counters by name, one a line.
pub snapshot : Stats → List ℕ
unfolding line
snapshot s =
    line (99 ∷ 111 ∷ 109 ∷ 112 ∷ 97 ∷ 99 ∷ 116 ∷ 105 ∷ 110 ∷ 103 ∷ []) (bool_text s.compacting) (
      line
        (99 ∷ 111 ∷ 109 ∷ 112 ∷ 97 ∷ 99 ∷ 116 ∷ 105 ∷ 111 ∷ 110 ∷ 95 ∷ 99 ∷ 111 ∷ 117 ∷ 110 ∷ 116
          ∷ [])
        (decimal s.compaction_count)
        (line
          (108 ∷ 97 ∷ 115 ∷ 116 ∷ 95 ∷ 99 ∷ 111 ∷ 109 ∷ 112 ∷ 97 ∷ 99 ∷ 116 ∷ 95 ∷ 115 ∷ 116 ∷ 97
            ∷ 114 ∷ 116 ∷ 95 ∷ 109 ∷ 115 ∷ [])
          (decimal s.last_compact_start_ms)
          (line
            (108 ∷ 97 ∷ 115 ∷ 116 ∷ 95 ∷ 99 ∷ 111 ∷ 109 ∷ 112 ∷ 97 ∷ 99 ∷ 116 ∷ 95 ∷ 101 ∷ 110 ∷ 100
              ∷ 95 ∷ 109 ∷ 115 ∷ [])
            (decimal s.last_compact_end_ms)
            (line
              (119 ∷ 114 ∷ 105 ∷ 116 ∷ 101 ∷ 95 ∷ 98 ∷ 108 ∷ 111 ∷ 99 ∷ 107 ∷ 101 ∷ 100 ∷ 95 ∷ 97
                ∷ 116 ∷ 116 ∷ 101 ∷ 109 ∷ 112 ∷ 116 ∷ 115 ∷ [])
              (decimal s.write_blocked_attempts)
              (line
                (119 ∷ 114 ∷ 105 ∷ 116 ∷ 101 ∷ 95 ∷ 98 ∷ 108 ∷ 111 ∷ 99 ∷ 107 ∷ 101 ∷ 100 ∷ 95 ∷ 116
                  ∷ 111 ∷ 116 ∷ 97 ∷ 108 ∷ 95 ∷ 109 ∷ 115 ∷ [])
                (decimal s.write_blocked_total_ms)
                (line (114 ∷ 101 ∷ 97 ∷ 100 ∷ 115 ∷ []) (decimal s.reads) (
                  line (119 ∷ 114 ∷ 105 ∷ 116 ∷ 101 ∷ 115 ∷ []) (decimal s.writes) (
                    line (100 ∷ 101 ∷ 108 ∷ 101 ∷ 116 ∷ 101 ∷ 115 ∷ []) (decimal s.deletes) (
                      (97 ∷ 99 ∷ 116 ∷ 105 ∷ 118 ∷ 101 ∷ 95 ∷ 99 ∷ 111 ∷ 110 ∷ 110 ∷ 101 ∷ 99 ∷ 116
                        ∷ 105 ∷ 111 ∷ 110 ∷ 115 ∷ [])
                      ++ 61 ∷ decimal s.active_connections)))))))))
