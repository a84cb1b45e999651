-- ===== src/Proposer/Config.antt =====
-- pkg/paxos/config.go and pkg/paxos/util.go: durations of a proposer, in nanoseconds.
use interactive_paxos.Prelude.{ℕ, ℤ, pos, negsuc, ltb_ℤ, leb_ℤ, ◌/◌, add_int, if◌then◌else◌}

pub record ProposerConfig : Type 0 where
  pub round_timeout : ℤ
  pub min_backoff : ℤ
  pub max_backoff : ℤ

-- 2 * time.Second
abbrev pub two_seconds : ℤ
two_seconds = pos 2_000_000_000

-- 100 * time.Millisecond
abbrev pub tenth_second : ℤ
tenth_second = pos 100_000_000

-- The three `if`s in turn: the last one reads the `MinBackoff` that the second one has set.
unfoldable pub with_defaults : ProposerConfig → ProposerConfig
with_defaults c =
    let round_timeout = if leb_ℤ c.round_timeout (pos 0) then two_seconds else c.round_timeout in
    let min_backoff = if leb_ℤ c.min_backoff (pos 0) then tenth_second else c.min_backoff in
    let max_backoff = if ltb_ℤ c.max_backoff min_backoff then two_seconds else c.max_backoff in
    record { round_timeout = round_timeout; min_backoff = min_backoff; max_backoff = max_backoff }

-- `draw d` stands for `rand.Int64N(d)`, asked at a positive bound only.
unfoldable pub jitter : (ℕ → ℕ) → ℤ → ℤ
jitter draw (pos n) = if leb_ℤ (pos n) (pos 0) then pos 0 else add_int (pos (n / 2)) (pos (draw n))
jitter draw (negsuc n) = pos 0

-- min(backoff*2, MaxBackoff)
unfoldable pub next_backoff : ProposerConfig → ℤ → ℤ
next_backoff cfg backoff =
    let doubled = add_int backoff backoff in
    if ltb_ℤ cfg.max_backoff doubled then cfg.max_backoff else doubled
