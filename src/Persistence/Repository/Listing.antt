-- ===== src/Persistence/Repository/Listing.antt =====
-- The lists that the repository answers with do not depend on the order in which Go visits a map.
use Prim.Native.String.{String}
use mathlib.Core.List.{Permᴰ}
use mathlib.Core.Option.{some-injective}
use text.Mathlib.Text.{◌==◌ as same_text}
use poker_arena.Common.{
  ℕ, ◌≡◌, ◌∙◌, sym, subst, Bool, some, List, map, All, All-mono, Keyed, Keyed-find, find,
  number_key, string_key, text_before_trans, text_before_asym, text_before_connected, arith,
}
use poker_arena.Common.Permutations.{
  Separates, sort_by-Perm, map-Perm, select-Perm, All-map_of, All-select,
}
use poker_arena.Persistence.Records.{HandRecord, SeatRecord}
use poker_arena.Persistence.Repository.{
  Repository, hand_before, seat_before, list_visited_hands, list_hands, list_visited_seats,
  list_seats,
}
use poker_arena.Persistence.Repository.Integrity.{Integrity}

-- A hand that stands in the map under its id.
abbrev Stored : List (String × HandRecord) → HandRecord → Type 0
Stored hands h = find h.hand_id hands ≡ some h

hand_before-Separates : (hands : List (String × HandRecord)) → Separates hand_before (Stored hands)
hand_before-Separates hands = record {
  asym = λ a b h. ground (arith, text_before_asym a.hand_id b.hand_id);
  connected = λ a b p q h k.
      let same : a.hand_id ≡ b.hand_id =
        text_before_connected a.hand_id b.hand_id (ground arith) (ground arith) in
      some-injective _ _ (sym p ∙ (rw same q));
  transitive = λ a b c h k. ground (arith, text_before_trans a.hand_id b.hand_id c.hand_id);
}

-- `ListHands` answers with one list, in whatever order the map of the hands is visited.
pub list_hands_order :
    (r : Repository) (visited : List (String × HandRecord)) (table_id : String)
    → Integrity r
    → Keyed r.hands
    → Permᴰ r.hands visited
    → list_visited_hands visited table_id ≡ list_hands r table_id
unfolding list_visited_hands list_hands
list_hands_order r visited table_id v keyed p =
    let at_table : HandRecord → Bool = λ h. same_text h.table_id table_id in
    let stored : All (λ e. Stored r.hands e.1) r.hands =
      All-mono {A = String × HandRecord} (λ e. find e.0 r.hands ≡ some e.1)
        (λ e. Stored r.hands e.1)
        (λ e g. subst (λ k. find k r.hands ≡ some e.1) (sym (v.hands_keyed e.0 e.1 g)) g) r.hands
        (Keyed-find r.hands keyed) in
    sym (
      sort_by-Perm hand_before (Stored r.hands) (hand_before-Separates r.hands)
        (select-Perm at_table (map-Perm (λ e. e.1) p))
        (All-select (Stored r.hands) at_table (map (λ e. e.1) r.hands)
          (All-map_of (Stored r.hands) (λ e. e.1) r.hands stored)))

-- A seat that stands in the map of a table under its number.
abbrev SeatedAs : List (ℕ × SeatRecord) → SeatRecord → Type 0
SeatedAs m s = find s.seat_no m ≡ some s

seat_before-Separates : (m : List (ℕ × SeatRecord)) → Separates seat_before (SeatedAs m)
seat_before-Separates m = record {
  asym = λ a b h. ground arith;
  connected = λ a b p q h k.
      let same : a.seat_no ≡ b.seat_no = ground arith in some-injective _ _ (sym p ∙ (rw same q));
  transitive = λ a b c h k. ground arith;
}

-- `ListSeats` answers with one list, in whatever order the map of the table is visited.
pub list_seats_order :
    (r : Repository) (visited m : List (ℕ × SeatRecord)) (table_id : String)
    → Integrity r
    → find table_id r.seats ≡ some m
    → Keyed m
    → Permᴰ m visited
    → list_visited_seats visited ≡ list_seats r table_id
unfolding list_visited_seats list_seats
list_seats_order r visited m table_id v there keyed p =
    let seat_number : (n : ℕ) (s : SeatRecord) → find n m ≡ some s → s.seat_no ≡ n =
      λ n s g. let (at_table, number, well) = v.seats_well table_id m n s there g in number in
    let seated : All (λ e. SeatedAs m e.1) m =
      All-mono {A = ℕ × SeatRecord} (λ e. find e.0 m ≡ some e.1) (λ e. SeatedAs m e.1)
        (λ e g. subst (λ k. find k m ≡ some e.1) (sym (seat_number e.0 e.1 g)) g) m
        (Keyed-find m keyed) in
    sym (
      rw (there, list_seats)
        (sort_by-Perm seat_before (SeatedAs m) (seat_before-Separates m) (map-Perm (λ e. e.1) p)
          (All-map_of (SeatedAs m) (λ e. e.1) m seated)))
