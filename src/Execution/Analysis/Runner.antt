-- ===== src/Execution/Analysis/Runner.antt =====
-- `SyncSubprocessExecutor.run` of execution/sync_subprocess_executor.py, with the teardown that a
-- cancelled spawn leaves behind: what it answers, and what it does to the work directory, the log
-- file, the child process and `_live`, in order.
use google_meridian_mcp_serv.Prelude.{
  ℕ, Bool, true, false, not, ◌&&◌, ◌||◌, ◌≡◌, ◌≢◌, ◌↔◌, ◌⊎◌, inl, inr, refl, sym, ◌∙◌, Option, none,
  some, List, [], ◌∷◌, ◌++◌, if◌then◌else◌, ◌==◌, arith,
}
use google_meridian_mcp_serv.Execution.Analysis.Protocol.{
  Response, Failure, Decoded, result, mcp_error, worker_failed, python_error, decode,
}
use google_meridian_mcp_serv.Prelude.Json.{Json}

pub data Event : Type 0 where
  made_workdir opened_log closed_log removed_workdir : Event
  spawned killed reaped listed unlisted : (pid : ℕ) → Event

-- How far the preparations come: an exception in them is an error of the spawn.
pub data Setup : Type 0 where
  no_workdir no_request no_log ready : Setup

-- How the wait for the child ends. After a timeout or a cancellation the killed child is awaited, and
-- the caller may be canceled in this second wait too.
pub data Wait : Type 0 where
  exited : (rc : ℕ) (response : Response) → Wait
  timed_out canceled_waiting : (canceled_again : Bool) → Wait

-- How the spawn ends. Where the caller is cancelled first, the shielded spawn still resolves: with
-- a child, or without one.
pub data Spawn : Type 0 where
  child : (pid : ℕ) → Wait → Spawn
  spawn_failed : Spawn
  canceled_spawning : (late : Option ℕ) (canceled_again : Bool) → Spawn

pub data Reply : Type 0 where
  answered : Decoded → Reply
  failed_to_spawn exceeded canceled : Reply

-- `except WorkerFailedError` keeps the directory, and any other error does for a non-zero code. A
-- result or an exception of Python leaves `keep` false.
abbrev pub keeps : ℕ → Decoded → Bool
keeps rc (result j) = false
keeps rc (worker_failed f) = true
keeps rc (mcp_error code message details) = not (rc == 0)
keeps rc (python_error e) = false

-- The `finally` of a `run` that owns the log and the directory.
abbrev pub finish : Bool → List Event
finish keep = closed_log ∷ (if keep then [] else removed_workdir ∷ [])

-- `kill_group`, and the wait after it unless that is canceled.
abbrev pub stopped : ℕ → (canceled_again : Bool) → List Event
stopped pid false = killed pid ∷ reaped pid ∷ []
stopped pid true = killed pid ∷ []

abbrev pub waited : ℕ → Wait → Reply × List Event
waited pid (exited rc response) = (
  answered (decode rc response),
  reaped pid ∷ unlisted pid ∷ finish (keeps rc (decode rc response)),
)
waited pid (timed_out false) = (exceeded, stopped pid false ++ unlisted pid ∷ finish true)
waited pid (timed_out true) = (canceled, stopped pid true ++ unlisted pid ∷ finish false)
waited pid (canceled_waiting again) = (canceled, stopped pid again ++ unlisted pid ∷ finish false)

-- `_on_spawn_after_cancel` and `_deferred_teardown`.
abbrev pub deferred_teardown : Option ℕ → (canceled_again : Bool) → List Event
deferred_teardown none again = closed_log ∷ removed_workdir ∷ []
deferred_teardown (some pid) again =
    spawned pid ∷ unlisted pid ∷ stopped pid again ++ closed_log ∷ removed_workdir ∷ []

abbrev pub spawn : Spawn → Reply × List Event
spawn (child pid w) =
    let (reply, events) = waited pid w in (reply, spawned pid ∷ listed pid ∷ events)
spawn spawn_failed = (failed_to_spawn, finish false)
spawn (canceled_spawning late again) = (canceled, deferred_teardown late again)

unfoldable pub run : Setup → Spawn → Reply × List Event
run no_workdir s = (failed_to_spawn, [])
run no_request s = (failed_to_spawn, made_workdir ∷ removed_workdir ∷ [])
run no_log s = (failed_to_spawn, made_workdir ∷ removed_workdir ∷ [])
run ready s = let (reply, events) = spawn s in (reply, made_workdir ∷ opened_log ∷ events)

-- What is left behind: a directory, an open log, a child that is alive, one that is dead but not
-- awaited, an entry of `_live`.
pub record Left : Type 0 where
  pub workdir : Bool
  pub log : Bool
  pub alive : Option ℕ
  pub unreaped : Option ℕ
  pub live : Option ℕ

abbrev pub nothing : Left
nothing = record { workdir = false; log = false; alive = none; unreaped = none; live = none }

-- What one event leaves; none where the event breaks the rules: the log and the directory are not
-- taken from under a living child, nothing is made or given back twice, and one child at a time is
-- killed, reaped and listed.
abbrev pub same_pid : Option ℕ → ℕ → Bool
same_pid none pid = false
same_pid (some q) pid = q == pid

abbrev pub idle : Option ℕ → Bool
idle none = true
idle (some q) = false

abbrev pub when : Bool → Left → Option Left
when b l = if b then some l else none

unfoldable pub after : Event → Left → Option Left
after made_workdir l = when (not l.workdir) (record l { workdir = true })
after opened_log l = when (l.workdir && not l.log) (record l { log = true })
after closed_log l = when (l.log && idle l.alive) (record l { log = false })
after removed_workdir l = when (l.workdir && idle l.alive) (record l { workdir = false })
after (spawned pid) l = when (l.log && idle l.alive) (record l { alive = some pid })
after (killed pid) l = when (same_pid l.alive pid) (record l { alive = none; unreaped = some pid })
after (reaped pid) l =
    when (same_pid l.alive pid || same_pid l.unreaped pid)
      (record l { alive = none; unreaped = none })
after (listed pid) l = when (same_pid l.alive pid && idle l.live) (record l { live = some pid })
after (unlisted pid) l = some (if same_pid l.live pid then record l { live = none } else l)

abbrev pub after_more : List Event → Option Left → (List Event → Left → Option Left) → Option Left
after_more es none next = none
after_more es (some l) next = next es l

unfoldable pub replay : List Event → Left → Option Left
replay [] l = some l
replay (e ∷ es) l = elim (after e l) [ none ↦ none | some m ↦ replay es m ]

-- When the directory stays for a post-mortem: after a timeout, after a failure of the worker (no
-- response, or one that cannot be read), and after an error of the program from a worker whose exit
-- code is not 0.
abbrev pub IsPostMortem : Setup → Spawn → Type 0
IsPostMortem ready (child pid (timed_out again)) = again ≡ false
IsPostMortem ready (child pid (exited rc response)) =
    ((f : Failure) × (decode rc response ≡ worker_failed f))
    ⊎ ((code : Json) × (message : Json) × (details : Json) × (decode rc response
          ≡ mcp_error code message details)
        × (rc ≢ 0))
IsPostMortem _ _ = ⊥

-- A second cancellation, while a killed child is awaited.
abbrev pub IsCanceledTwice : Setup → Spawn → Type 0
IsCanceledTwice ready (child pid (timed_out again)) = again ≡ true
IsCanceledTwice ready (child pid (canceled_waiting again)) = again ≡ true
IsCanceledTwice ready (canceled_spawning (some pid) again) = again ≡ true
IsCanceledTwice _ _ = ⊥

-- What a run leaves.
abbrev pub Leaves : Setup → Spawn → Left → Type 0
Leaves setup s l =
    (l.alive ≡ none)
    × (l.live ≡ none)
    × (l.log ≡ false)
    × ((l.workdir ≡ true) ↔ IsPostMortem setup s)
    × ((l.unreaped ≢ none) ↔ IsCanceledTwice setup s)

eq_self : (n : ℕ) → (n == n) ≡ true
eq_self n = ground arith

abbrev kept : Bool → Left
kept keep = record nothing { workdir = keep }

replay-exited :
    (pid rc : ℕ) (response : Response)
    → replay (run ready (child pid (exited rc response))).1 nothing
      ≡ some (kept (keeps rc (decode rc response)))
unfolding run replay after
replay-exited pid rc response = ground (arith, eq_self pid)

postmortem_of :
    (pid rc : ℕ) (response : Response) (d : Decoded)
    → decode rc response ≡ d
    → (keeps rc d ≡ true) ↔ IsPostMortem ready (child pid (exited rc response))
postmortem_of pid rc response (result j) e = (
  λ k. absurd cc,
  λ m. elim m [
    | inl (f, e') ↦ let bad : result j ≡ worker_failed f = sym e ∙ e' in absurd cc
    | inr (c, n, d, e', nz) ↦ let bad : result j ≡ mcp_error c n d = sym e ∙ e' in absurd cc
  ],
)
postmortem_of pid rc response (worker_failed f) e = (λ k. inl (f, e), λ m. refl)
postmortem_of pid rc response (mcp_error c n d) e = (
  λ k. inr (c, n, d, e, λ z. ground (arith, z)),
  λ m. elim m [
    | inl (f, e') ↦ let bad : mcp_error c n d ≡ worker_failed f = sym e ∙ e' in absurd cc
    | inr (c', n', d', e', nz) ↦ ground (arith, nz)
  ],
)
postmortem_of pid rc response (python_error x) e = (
  λ k. absurd cc,
  λ m. elim m [
    | inl (f, e') ↦ let bad : python_error x ≡ worker_failed f = sym e ∙ e' in absurd cc
    | inr (c, n, d, e', nz) ↦ let bad : python_error x ≡ mcp_error c n d = sym e ∙ e' in absurd cc
  ],
)

never : (false ≡ true) ↔ ⊥
never = ((λ e. cc), (λ x. elim x [ ]))

-- Nothing but a directory, or nothing but a child that is not awaited.
abbrev dead : ℕ → Left
dead pid = record nothing { unreaped = some pid }

clean :
    (setup : Setup) (s : Spawn) (keep : Bool)
    → ((keep ≡ true) ↔ IsPostMortem setup s)
    → (IsCanceledTwice setup s → ⊥)
    → Leaves setup s (kept keep)
clean setup s keep p c = (refl, refl, refl, p, ((λ n. elim (n refl) [ ]), (λ t. elim (c t) [ ])))

interrupted :
    (setup : Setup) (s : Spawn) (pid : ℕ)
    → (IsPostMortem setup s → ⊥)
    → IsCanceledTwice setup s
    → Leaves setup s (dead pid)
interrupted setup s pid p c =
    (refl, refl, refl, ((λ e. absurd cc), (λ m. elim (p m) [ ])), ((λ n. c), (λ t e. cc)))

-- Every run cleans up after itself, however the preparations, the spawn and the wait end, and also
-- where the caller is canceled before or after the child exists, once or twice: no child is left
-- alive or listed in `_live`, the log is closed, neither the log nor the directory is taken from
-- under a living child, and the directory is left exactly for a post-mortem, so not after a failure
-- to spawn. A killed child is left unawaited exactly where the wait for it is canceled.
pub run-replay :
    (setup : Setup) (s : Spawn)
    → (l : Left) × (replay (run setup s).1 nothing ≡ some l) × Leaves setup s l
unfolding run replay after
run-replay no_workdir s = (nothing, refl, clean no_workdir s false never (λ x. x))
run-replay no_request s = (nothing, refl, clean no_request s false never (λ x. x))
run-replay no_log s = (nothing, refl, clean no_log s false never (λ x. x))
run-replay ready spawn_failed = (nothing, refl, clean ready spawn_failed false never (λ x. x))
run-replay ready (canceled_spawning none again) =
    (nothing, refl, clean ready (canceled_spawning none again) false never (λ x. x))
run-replay ready (canceled_spawning (some pid) false) = (
  nothing,
  ground (arith, eq_self pid),
  clean ready (canceled_spawning (some pid) false) false never (λ x. cc),
)
run-replay ready (canceled_spawning (some pid) true) = (
  dead pid,
  ground (arith, eq_self pid),
  interrupted ready (canceled_spawning (some pid) true) pid (λ x. x) refl,
)
run-replay ready (child pid (timed_out false)) = (
  kept true,
  ground (arith, eq_self pid),
  clean ready (child pid (timed_out false)) true ((λ e. refl), (λ m. refl)) (λ x. cc),
)
run-replay ready (child pid (timed_out true)) = (
  dead pid,
  ground (arith, eq_self pid),
  interrupted ready (child pid (timed_out true)) pid (λ x. cc) refl,
)
run-replay ready (child pid (canceled_waiting false)) = (
  nothing,
  ground (arith, eq_self pid),
  clean ready (child pid (canceled_waiting false)) false never (λ x. cc),
)
run-replay ready (child pid (canceled_waiting true)) = (
  dead pid,
  ground (arith, eq_self pid),
  interrupted ready (child pid (canceled_waiting true)) pid (λ x. x) refl,
)
run-replay ready (child pid (exited rc response)) = (
  kept (keeps rc (decode rc response)),
  replay-exited pid rc response,
  clean ready (child pid (exited rc response)) (keeps rc (decode rc response))
      (postmortem_of pid rc response (decode rc response) refl) (λ x. x),
)
