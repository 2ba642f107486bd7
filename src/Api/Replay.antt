-- ===== src/Api/Replay.antt =====
-- The handlers that read hands: what a caller is shown of them.
pub mod Visible
use Prim.Native.String
use Prim.Native.String.{String}
use poker_arena.Common.{
  ℕ, ◌≡◌, ap, suc, zero, ◌+◌, Bool, true, false, not, ◌&&◌, ◌||◌, Option, none, some, List, [], ◌∷◌,
  map, select, length, find, put, number_key, if◌then◌else◌, is_empty, trim_space, ◌==◌,
}
use text.Mathlib.Text.{◌==◌ as same_text}
use poker_arena.Domain.{
  SeatState, SeatCards, HandState, HandPhase, PotAward, Street, ActionKind, contains,
}
use poker_arena.Persistence.Records.{Time, HandRecord, ActionRecord, TableRecord}
use poker_arena.Persistence.Repository.{
  Repository, get_hand, get_table, get_table_run, list_hands, list_actions, has,
}
use poker_arena.Api.Access.{CallerRole, admin, seat, CallerIdentity, is_admin, seat_no_of}
use poker_arena.Api.Analytics.{ReplayAnalytics, replay_analytics}

-- A response: an error with its status, or a payload with the status 200.
pub data Response {ℓ} (T : Type ℓ) : Type ℓ where
  failed : ℕ → Response T
  payload : T → Response T

pub payload-injective {ℓ} : {A : Type ℓ} {x y : A} → payload x ≡ payload y → x ≡ y
payload-injective {x} e = ap (λ r. elim r [ failed code ↦ x | payload z ↦ z ]) e

-- `handResponse`
pub record HandResponse : Type 0 where
  pub hand_id : String
  pub table_id : String
  pub hand_no : ℕ
  pub started_at : Time
  pub ended_at : Option Time
  pub final_phase : HandPhase
  pub winner_summary : List PotAward

-- `mapHandRecordToResponse`
abbrev pub map_hand_record_to_response : HandRecord → HandResponse
map_hand_record_to_response hand = record {
  hand_id = hand.hand_id;
  table_id = hand.table_id;
  hand_no = hand.hand_no;
  started_at = hand.started_at;
  ended_at = hand.ended_at;
  final_phase = hand.final_phase;
  winner_summary = hand.winner_summary;
}

-- `handIncludesSeat`
abbrev pub any_seat : ℕ → List SeatState → Bool
any_seat n [] = false
any_seat n (s ∷ seats) = if s.seat_no == n then true else any_seat n seats

abbrev pub hand_includes_seat : HandRecord → ℕ → Bool
hand_includes_seat hand n = any_seat n hand.final_state.seats

-- `identity.Role == CallerRoleSeat`
abbrev pub is_seat : CallerIdentity → Bool
is_seat i = elim i.role [ admin ↦ false | seat ↦ true ]

-- The hands that a caller may see.
abbrev pub visible_hands : CallerIdentity → List HandRecord → List HandRecord
visible_hands who hands =
    if is_seat who then select (λ h. hand_includes_seat h (seat_no_of who)) hands else hands

abbrev pub none_left : List HandRecord → Bool
none_left [] = true
none_left (h ∷ hs) = false

-- `handleHands`
unfoldable pub handle_hands : Repository → CallerIdentity → String → Response (List HandResponse)
handle_hands r who table_id =
    let hands = list_hands r table_id in
    let filtered = visible_hands who hands in
    if (none_left hands || is_seat who && none_left filtered)
      && not (has (get_table_run r table_id))
    then failed 404
    else payload (map map_hand_record_to_response filtered)

-- `handleActions`; the response has the fields of the record.
unfoldable pub handle_actions : Repository → CallerIdentity → String → Response (List ActionRecord)
handle_actions r who hand_id = elim (get_hand r hand_id) [
  | none ↦ failed 404
  | some hand ↦
      if is_seat who && not (hand_includes_seat hand (seat_no_of who))
      then failed 403
      else payload (list_actions r hand_id)
]

abbrev pub any_showdown : List PotAward → Bool
any_showdown [] = false
any_showdown (a ∷ awards) = if same_text a.reason "showdown" then true else any_showdown awards

-- `isShowdownHand`
abbrev pub is_showdown_hand : HandRecord → Bool
is_showdown_hand hand =
    any_showdown hand.winner_summary || any_showdown hand.final_state.showdown_awards

abbrev pub without_cards : SeatCards → SeatCards
without_cards c = record c { cards = [] }

-- `applyReplayVisibility`
unfoldable pub apply_replay_visibility : CallerIdentity → HandRecord → HandState → HandState
apply_replay_visibility who hand state = if not (is_seat who) then state else record state {
  hole_cards =
      map (λ c. if c.seat_no == seat_no_of who || is_showdown_hand hand then c else without_cards c)
        state.hole_cards;
}

abbrev pub folded_seats : List SeatState → List ℕ
folded_seats [] = []
folded_seats (s ∷ seats) = if s.folded then s.seat_no ∷ folded_seats seats else folded_seats seats

-- `redactFoldedSeatHoleCards`
unfoldable pub redact_folded_seat_hole_cards : HandState → HandState
redact_folded_seat_hole_cards state = record state {
  hole_cards =
      map (λ c. if contains c.seat_no (folded_seats state.seats) then without_cards c else c)
        state.hole_cards;
}

-- `parseRedactHoleCards`
unfoldable pub parse_redact_hole_cards : String → Option Bool
parse_redact_hole_cards raw =
    let normalized = trim_space raw in
    if is_empty normalized
    then some false
    else if same_text normalized "true"
    then some true
    else if same_text normalized "false"
    then some false
    else none

-- `handReplayResponse`; the actions have the fields of their records.
pub record HandReplayResponse : Type 0 where
  pub hand : HandResponse
  pub final_state : HandState
  pub actions : List ActionRecord
  pub analytics : ReplayAnalytics

-- `buildHandReplayResponse`
unfoldable pub build_hand_replay_response :
    Repository → CallerIdentity → HandRecord → Bool → HandReplayResponse
build_hand_replay_response r who hand redact =
    let actions = list_actions r hand.hand_id in
    let shown = apply_replay_visibility who hand hand.final_state in
    record {
      hand = map_hand_record_to_response hand;
      final_state = if redact then redact_folded_seat_hole_cards shown else shown;
      actions = actions;
      analytics = replay_analytics actions;
    }

-- `handleReplay`
unfoldable pub handle_replay :
    Repository → CallerIdentity → String → String → Response HandReplayResponse
unfolding build_hand_replay_response
handle_replay r who hand_id raw = elim (parse_redact_hole_cards raw) [
  | none ↦ failed 400
  | some redact ↦ elim (get_hand r hand_id) [
    | none ↦ failed 404
    | some hand ↦
        if is_seat who && not (hand_includes_seat hand (seat_no_of who))
        then failed 403
        else payload (build_hand_replay_response r who hand redact)
  ]
]

-- `latestTableReplayResponse`
pub record LatestTableReplayResponse : Type 0 where
  pub table : TableRecord
  pub latest_hand : Option HandResponse
  pub replay : Option HandReplayResponse

-- `filtered[len(filtered)-1]`
abbrev pub last_hand : List HandRecord → Option HandRecord
last_hand [] = none
last_hand (h ∷ hs) = elim (last_hand hs) [ none ↦ some h | some l ↦ some l ]

-- `handleLatestReplay`
unfoldable pub handle_latest_replay :
    Repository → CallerIdentity → String → String → Response LatestTableReplayResponse
unfolding build_hand_replay_response
handle_latest_replay r who table_id raw = elim (get_table r table_id) [
  | none ↦ failed 404
  | some table ↦ elim (parse_redact_hole_cards raw) [
    | none ↦ failed 400
    | some redact ↦ elim (last_hand (visible_hands who (list_hands r table_id))) [
      | none ↦ payload (record { table = table; latest_hand = none; replay = none })
      | some hand ↦ payload (record {
        table = table;
        latest_hand = some (map_hand_record_to_response hand);
        replay = some (build_hand_replay_response r who hand redact);
      })
    ]
  ]
]
