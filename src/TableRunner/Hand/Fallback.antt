-- ===== src/TableRunner/Hand/Fallback.antt =====
-- `applyFallback` never fails on a valid hand.
use poker_arena.Common.{ℕ, ◌≡◌, refl, inl, inr, leb, if◌then◌else◌, Bool-cases, leb→le, le→leb}
use poker_arena.Domain.{ok, SeatState, HandState, betting}
use poker_arena.Domain.Results.{Result-cases}
use poker_arena.StateMachine.Action.{acting, apply_action}
use poker_arena.StateMachine.Action.Valid.{IsValid}
use poker_arena.StateMachine.Action.Apply.{apply_action-ok_iff, apply_action-IsValid}
use poker_arena.TableRunner.Hand.{apply_fallback, fallback_action_check, fallback_action_fold}

-- On a valid hand in the betting phase the fallback plays: a check where the seat owes nothing,
-- and a fold where it does.
pub apply_fallback_total :
    (s : HandState) (i : ℕ) (x : SeatState)
    → IsValid s
    → s.phase ≡ betting
    → acting s ≡ ok (i, x)
    → (t : HandState) × (apply_fallback s
        ≡ ok (
          t,
          if leb s.current_bet x.committed_in_round
              then fallback_action_check
              else fallback_action_fold,
        ))
      × IsValid t
unfolding apply_fallback
apply_fallback_total s i x v phase turn =
    elim (Bool-cases (leb s.current_bet x.committed_in_round)) [
      | inl free ↦
          let (t, played) =
            (apply_action-ok_iff s fallback_action_check i x v phase turn).1 (leb→le _ _ free) in
          (
            t,
            rw (played, apply_fallback) (rw free refl),
            apply_action-IsValid s fallback_action_check v played,
          )
      | inr owes ↦ elim (Result-cases (apply_action s fallback_action_check)) [
        | inl (t, played) ↦
            let le = (apply_action-ok_iff s fallback_action_check i x v phase turn).0 (t, played) in
            absurd (cc (le→leb _ _ le, owes))
        | inr (e, refused) ↦
            let (t, folded) = (apply_action-ok_iff s fallback_action_fold i x v phase turn).1 tt in
            (
              t,
              rw (refused, apply_fallback) (rw (folded, apply_fallback) (rw owes refl)),
              apply_action-IsValid s fallback_action_fold v folded,
            )
      ]
    ]
