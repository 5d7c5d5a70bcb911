-- ===== src/Pause/Release.antt =====
-- How long a pause lasts, over any run of polls and commands.
use qlsm_extra.Base.{
  ℕ, ◌+◌, ◌≤◌, ◌≡◌, Bool, false, ◌||◌, Option, none, some, List, [], ◌∷◌, arith, ltb, if◌then◌else◌,
}
use qlsm_extra.Base.Text.{Text}
use qlsm_extra.Pause.Commands.{asked}
use qlsm_extra.Pause.{Pause, release_ms, paused_active, note_client_command, reset_pause_state}

-- What happens to the module: the engine is asked at a time, a line is seen, or the state is reset.
pub data Input : Type 0 where
  poll : ℕ → Bool → Input
  line : Text → Bool → Input
  reset : Input

unfoldable pub take_in : Input → Pause → Pause
take_in (Input.poll now raw) s = (paused_active raw now s).0
take_in (Input.line cmd allowed) s = note_client_command cmd allowed s
take_in Input.reset s = reset_pause_state s

unfoldable pub take_all : List Input → Pause → Pause
take_all [] s = s
take_all (i ∷ inputs) s = take_all inputs (take_in i s)

-- The times of the polls are in order, between `from` and `to`.
abbrev pub Ordered : ℕ → ℕ → List Input → Type 0
Ordered from to [] = from ≤ to
Ordered from to (Input.poll now raw ∷ inputs) = (from ≤ now) × Ordered now to inputs
Ordered from to (Input.line cmd allowed ∷ inputs) = Ordered from to inputs
Ordered from to (Input.reset ∷ inputs) = Ordered from to inputs

-- The latch after a line.
unfoldable pub spoken : Text → Bool → Bool → Bool
spoken cmd allowed latch = elim (asked cmd) [
  | none ↦ latch
  | some pause ↦ if allowed then pause else latch
]

-- The last command that was allowed: pause or not, from `latch` at the beginning.
unfoldable pub latched : Bool → List Input → Bool
latched latch [] = latch
latched latch (Input.poll now raw ∷ inputs) = latched latch inputs
latched latch (Input.line cmd allowed ∷ inputs) = latched (spoken cmd allowed latch) inputs
latched latch (Input.reset ∷ inputs) = latched false inputs

-- The time of the last poll at which the engine said that it paused.
unfoldable pub last_raw : Option ℕ → List Input → Option ℕ
last_raw seen [] = seen
last_raw seen (Input.poll now raw ∷ inputs) = last_raw (if raw then some now else seen) inputs
last_raw seen (Input.line cmd allowed ∷ inputs) = last_raw seen inputs
last_raw seen (Input.reset ∷ inputs) = last_raw none inputs

abbrev pub recent : ℕ → Option ℕ → Bool
recent now none = false
recent now (some seen) = ltb now (seen + release_ms)

-- The state holds the last report of the engine, or has dropped it because it is too old.
abbrev Tracks : ℕ → Option ℕ → Option ℕ → Type 0
Tracks from none none = Unit
Tracks from none (some seen) = seen + release_ms ≤ from
Tracks from (some kept) none = ⊥
Tracks from (some kept) (some seen) = kept ≡ seen

answer_of :
    (s : Pause) (seen : Option ℕ) (from now : ℕ) (raw : Bool)
    → from ≤ now
    → Tracks from s.seen_at seen
    → (paused_active raw now s).1 ≡ (raw || (s.latch || recent now seen))
unfolding paused_active
answer_of s none from now raw h t = ground arith
answer_of s (some seen) from now raw h t = ground arith

poll-Tracks :
    (s : Pause) (seen : Option ℕ) (from now : ℕ) (raw : Bool)
    → from ≤ now
    → Tracks from s.seen_at seen
    → Tracks now (paused_active raw now s).0.seen_at (if raw then some now else seen)
      × ((paused_active raw now s).0.latch ≡ s.latch)
unfolding paused_active
poll-Tracks s none from now raw h t = ground arith
poll-Tracks s (some seen) from now raw h t = ground arith

line-Tracks :
    (cmd : Text) (allowed : Bool) (s : Pause) (seen : Option ℕ) (from : ℕ)
    → Tracks from s.seen_at seen
    → Tracks from (note_client_command cmd allowed s).seen_at seen
      × ((note_client_command cmd allowed s).latch ≡ spoken cmd allowed s.latch)
unfolding note_client_command spoken
line-Tracks cmd allowed s seen from t = ground arith

take_all-answer :
    (inputs : List Input) (s : Pause) (seen : Option ℕ) (from now : ℕ) (raw : Bool)
    → Ordered from now inputs
    → Tracks from s.seen_at seen
    → (paused_active raw now (take_all inputs s)).1
      ≡ (raw || (latched s.latch inputs || recent now (last_raw seen inputs)))
unfolding take_all take_in latched last_raw reset_pause_state note_client_command
take_all-answer [] s seen from now raw o t = answer_of s seen from now raw o t
take_all-answer (Input.poll at then_raw ∷ inputs) s seen from now raw o t =
    let (tracks, latch) = poll-Tracks s seen from at then_raw o.0 t in
    rw latch at (
      take_all-answer inputs (paused_active then_raw at s).0 (if then_raw then some at else seen) at
        now raw o.1 tracks)
take_all-answer (Input.line cmd allowed ∷ inputs) s seen from now raw o t =
    let (tracks, latch) = line-Tracks cmd allowed s seen from t in
    rw latch at
      (take_all-answer inputs (note_client_command cmd allowed s) seen from now raw o tracks)
take_all-answer (Input.reset ∷ inputs) s seen from now raw o t =
    take_all-answer inputs (reset_pause_state s) none from now raw o tt

-- Whatever was polled and typed before: a match counts as paused at a poll exactly if the engine
-- reports a pause at that poll, or the last allowed command since the last reset was a pause, or the
-- engine reported a pause less than two seconds before the poll and no reset came in between.
pub take_all-paused :
    (inputs : List Input) (now : ℕ) (raw : Bool)
    → Ordered 0 now inputs
    → (paused_active raw now (take_all inputs (record { latch = false; seen_at = none }))).1
      ≡ (raw || (latched false inputs || recent now (last_raw none inputs)))
take_all-paused inputs now raw o =
    take_all-answer inputs (record { latch = false; seen_at = none }) none 0 now raw o tt
