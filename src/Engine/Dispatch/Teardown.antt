-- ===== src/Engine/Dispatch/Teardown.antt =====
-- The removal of a container and the end of a session that runs too long, dispatch.py. What Podman
-- and the operating system answer are arguments.
use ampa.Prelude.{
  ℕ, String, Bool, true, false, not, List, [], ◌∷◌, ◌++◌, Option, none, some, if◌then◌else◌, ◌≡◌,
  refl, arith, contains, keep, any, ℤ, eq_ℤ, Bool-cases, inl, inr, eq_iff, eq_refl,
}
use ampa.Text.{lower, has_text}
use ampa.Engine.Dispatch.Pool.{
  PoolFiles, pool_names, is_available, list_available_pool, release_pool_container,
  mark_for_cleanup,
}

-- How a command ends: with a return code and its standard error, by its timeout, or it does not
-- start.
pub data CommandEnd : Type 0 where
  exited : ℤ → (stderr : String) → CommandEnd
  timed_out not_started : CommandEnd

abbrev not_found_phrases : List String
not_found_phrases =
    "no container with name or id" ∷ "no such container" ∷ "container not found" ∷ "does not exist"
    ∷ []

unfoldable pub is_not_found_error : String → Bool
unfolding lower has_text
is_not_found_error stderr = any (λ p. has_text (lower stderr) p) not_found_phrases

-- What `podman stop` or `podman rm` has done.
pub data Phase : Type 0 where
  passed absent broken : Phase

unfoldable pub phase_of : CommandEnd → Phase
phase_of (exited code stderr) =
    if eq_ℤ code 0 then passed else if is_not_found_error stderr then absent else broken
phase_of timed_out = broken
phase_of not_started = broken

abbrev pub after_rm : String → PoolFiles → Phase → PoolFiles × Bool
after_rm name files passed = (files, true)
after_rm name files absent = (files, true)
after_rm name files broken = (mark_for_cleanup name files, false)

abbrev pub after_stop : String → PoolFiles → (rm stop : Phase) → PoolFiles × Bool
after_stop name files rm passed = after_rm name files rm
after_stop name files rm absent = (files, true)
after_stop name files rm broken = (mark_for_cleanup name files, false)

unfoldable pub teardown_container : (stop rm : CommandEnd) → String → PoolFiles → PoolFiles × Bool
unfolding phase_of
teardown_container stop rm name files = after_stop name files (phase_of rm) (phase_of stop)

-- `_teardown_on_completion`, once the wait for the process is over.
unfoldable pub teardown_on_completion : (stop rm : CommandEnd) → String → PoolFiles → PoolFiles
teardown_on_completion stop rm name files =
    release_pool_container name (teardown_container stop rm name files).0

-- `os.killpg` is refused if the group is gone or belongs to someone else.
pub data Signal : Type 0 where
  terminate kill : Signal

abbrev pub kill_if : (present : Bool) → List Signal
kill_if true = terminate ∷ kill ∷ []
kill_if false = terminate ∷ []

-- The signals that `_enforce_timeout` sends: `poll` is the exit code if there is one, `term` says
-- whether the first signal was sent, and `exits` whether the process ends in the grace period.
pub enforce_timeout : (poll : Option ℕ) → (term exits : Bool) → List Signal
enforce_timeout (some code) term exits = []
enforce_timeout none false exits = []
enforce_timeout none true exits = kill_if (not exits)

-- `_enforce_timeout_by_pid`, with the answers to its probes in the grace period: whether the group
-- is still there.
unfoldable pub probe_all : (probes : List Bool) → Bool
probe_all [] = true
probe_all (there ∷ probes) = let rest = probe_all probes in if there then rest else false

unfoldable pub enforce_timeout_by_pid : (present term : Bool) → (probes : List Bool) → List Signal
enforce_timeout_by_pid false term probes = []
enforce_timeout_by_pid true false probes = []
enforce_timeout_by_pid true true probes = kill_if (probe_all probes)

contains-keep :
    (p : String → Bool) (xs : List String) (x : String)
    → p x ≡ false
    → contains (keep p xs) x ≡ false
contains-keep p [] x h = refl
contains-keep p (y ∷ ys) x h = elim (Bool-cases (p y)) [
  | inr dropped ↦ rw dropped (contains-keep p ys x h)
  | inl kept ↦ rw kept (ground (arith, eq_iff y x, contains-keep p ys x h))
]

contains-append : (xs : List String) (x : String) → contains (xs ++ x ∷ []) x ≡ true
contains-append [] x = rw (eq_refl x) refl
contains-append (y ∷ ys) x = ground (arith, contains-append ys x)

mark_for_cleanup_lem :
    (name : String) (files : PoolFiles) → contains (mark_for_cleanup name files).cleanup name ≡ true
unfolding mark_for_cleanup
mark_for_cleanup_lem name files = ground (arith, contains-append files.cleanup name)

teardown_marks :
    (stop rm : CommandEnd) (name : String) (files : PoolFiles)
    → (teardown_container stop rm name files).1 ≡ false
    → contains (teardown_container stop rm name files).0.cleanup name ≡ true
unfolding teardown_container
teardown_marks stop rm name files h = go (phase_of rm) (phase_of stop) h
  where
    go :
        (r s : Phase)
        → (after_stop name files r s).1 ≡ false
        → contains (after_stop name files r s).0.cleanup name ≡ true
    go passed passed q = absurd (ground arith)
    go absent passed q = absurd (ground arith)
    go broken passed q = mark_for_cleanup_lem name files
    go r absent q = absurd (ground arith)
    go r broken q = mark_for_cleanup_lem name files

-- A container whose removal has failed is not offered again once its session is over: its claim is
-- gone, but it waits on the cleanup list.
pub teardown_failed-unavailable :
    (stop rm : CommandEnd) (name : String) (files : PoolFiles)
    → (teardown_container stop rm name files).1 ≡ false
    → (existing : List String)
    → contains (list_available_pool existing (teardown_on_completion stop rm name files)) name
      ≡ false
unfolding teardown_on_completion release_pool_container list_available_pool is_available
teardown_failed-unavailable stop rm name files h existing =
    contains-keep _ pool_names name (ground (arith, teardown_marks stop rm name files h))
