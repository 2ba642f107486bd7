-- ===== src/Api/Run/Launched.antt =====
-- What is left of the runs and of the stored statuses when `handleStart` has taken a checked request.
use Prim.Native.String.{String}
use poker_arena.Common.{
  ◌≡◌, ◌⊎◌, inl, inr, refl, Option, none, some, Option-cases, find, put, find-put_self, remove-put,
  put-put, joined, ap, string_key,
}
use poker_arena.TableRunner.Table.{RunTableInput}
use poker_arena.Persistence.Records.{Time, TableRunRecord}
use poker_arena.Persistence.Repository.{Repository, upsert_table_run, get_table_run}
use poker_arena.Api.Replay.{Response, payload, payload-injective}
use poker_arena.Api.Run.{Control, fresh_status, failed_status, fail_before_run, launch}

-- The repository with one more status of a run of the table, or with its status replaced.
abbrev stored : Repository → String → TableRunRecord → Repository
stored r table_id status = record r { table_runs = put table_id status r.table_runs }

-- What a request to start leaves. Where it succeeds the table was not running, and it runs now, with a
-- status that is stored, and nothing else has changed; where it fails the runs are as they were, and
-- so is the repository, but that an idle table may have a failed status, which says why.
abbrev pub Begun : Control → String → Time → Control × Response RunTableInput → Type 0
Begun c table_id now (d, Response.failed code) =
    (d.runs ≡ c.runs)
    × ((d.repo ≡ c.repo)
        ⊎ ((find table_id c.runs ≡ none)
            × (input : RunTableInput) × (why : String) × (d.repo
                ≡ stored c.repo table_id
                    (failed_status (fresh_status table_id now input) now why))))
Begun c table_id now (d, payload input) =
    (find table_id c.runs ≡ none)
    × (find table_id d.runs ≡ some (fresh_status table_id now input))
    × (get_table_run d.repo table_id ≡ some (fresh_status table_id now input))
    × (d.runs ≡ put table_id (fresh_status table_id now input) c.runs)
    × (d.repo ≡ stored c.repo table_id (fresh_status table_id now input))

pub launch-Begun :
    (c : Control) (table_id : String) (now : Time) (input : RunTableInput)
    (provider_error : Option String)
    → Begun c table_id now (launch c table_id now input provider_error)
unfolding launch upsert_table_run fail_before_run get_table_run
launch-Begun c table_id now input (some why) = elim (Option-cases (find table_id c.runs)) [
  | inr (run, there) ↦ rw (there, launch) (refl, inl refl)
  | inl idle ↦
      let status = fresh_status table_id now input in
      rw (idle, launch)
        (
          remove-put table_id status c.runs idle,
          inr (
            idle,
            input,
            joined "resolve action provider: " why,
            ap (λ m. record c.repo { table_runs = m })
                (put-put table_id status _ c.repo.table_runs),
          ),
        )
]
launch-Begun c table_id now input none = elim (Option-cases (find table_id c.runs)) [
  | inr (run, there) ↦ rw (there, launch) (refl, inl refl)
  | inl idle ↦
      rw (idle, launch)
        (
          idle,
          find-put_self table_id (fresh_status table_id now input) c.runs,
          find-put_self table_id (fresh_status table_id now input) c.repo.table_runs,
          refl,
          refl,
        )
]

pub launch-payload :
    (c : Control) (table_id : String) (now : Time) (input : RunTableInput) (problem : Option String)
    {given : RunTableInput}
    → (launch c table_id now input problem).1 ≡ payload given
    → (input ≡ given) × (find table_id c.runs ≡ none) × (problem ≡ none)
unfolding launch upsert_table_run
launch-payload c table_id now input problem e = elim (Option-cases (find table_id c.runs)) [
  | inr (run, there) ↦ absurd (cc (rw (there, launch) at e))
  | inl idle ↦ elim (Option-cases problem) [
    | inl fine ↦ (payload-injective (rw (idle, fine, launch) at e), idle, fine)
    | inr (why, bad) ↦ absurd (cc (rw (idle, bad, launch) at e))
  ]
]
