-- ===== src/Session/Supervisor.antt =====
-- The owner of the running initiator, internal/session/supervisor.go. What Build and the initiator's
-- Start answer at a call are arguments of that call. The calls that the supervisor makes of
-- initiators are part of a method's result, in their order.
pub mod Turns
use fix_session_lab.Base.{ℕ, ◌+◌, ◌++◌, List, [], ◌∷◌, Option, none, some}
use fix_session_lab.Base.Text.{Text}
use fix_session_lab.Deps.{Result, ok, err}

pub data Call (I : Type 0) : Type 0 where
  started : I → Call I
  -- Start made an error
  failed : I → Call I
  stopped : I → Call I

pub data StartError : Type 0 where
  already_running : StartError
  build_failed : Text → StartError
  start_failed : Text → StartError

pub record Supervisor (I : Type 0) : Type 0 where
  pub current : Option I
  pub starts : ℕ

module _ {I : Type 0} where
  unfoldable pub start_locked :
      Supervisor I → Result Text I → Option Text → Supervisor I × List (Call I) × Option StartError
  start_locked s build start_error = elim (s.current) [
    | some i ↦ (s, [], some already_running)
    | none ↦ elim build [
      | err e ↦ (s, [], some (build_failed e))
      | ok i ↦ elim start_error [
        | some e ↦ (s, failed i ∷ [], some (start_failed e))
        | none ↦ (record { current = some i; starts = s.starts + 1 }, started i ∷ [], none)
      ]
    ]
  ]

  unfoldable pub start :
      Supervisor I → Result Text I → Option Text → Supervisor I × List (Call I) × Option StartError
  unfolding start_locked
  start s build start_error = start_locked s build start_error

  unfoldable pub stop_locked : Supervisor I → Supervisor I × List (Call I)
  stop_locked s = elim (s.current) [
    | none ↦ (s, [])
    | some i ↦ (record s { current = none }, stopped i ∷ [])
  ]

  unfoldable pub stop : Supervisor I → Supervisor I × List (Call I)
  unfolding stop_locked
  stop s = stop_locked s

  unfoldable pub restart :
      Supervisor I → Result Text I → Option Text → Supervisor I × List (Call I) × Option StartError
  unfolding stop_locked start_locked
  restart s build start_error =
      let (s', calls) = stop_locked s in
      let (s'', more, e) = start_locked s' build start_error in (s'', calls ++ more, e)

  unfoldable pub starts : Supervisor I → ℕ
  starts s = s.starts
