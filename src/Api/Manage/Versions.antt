-- ===== src/Api/Manage/Versions.antt =====
-- Which number the loop of `handleCreateAgentVersion` gives to a new version.
use Prim.Native.String.{String}
use poker_arena.Common.{
  ℕ, suc, zero, ◌+◌, ◌≤◌, ◌<◌, ◌≡◌, inl, inr, refl, ap, sym, ◌∙◌, subst, true, false, Option, none,
  some, Bool-cases, ◌==◌, ==_iff, List, find, put, string_key, arith, trim_space, is_empty,
}
use poker_arena.Persistence.Records.{
  agent_not_found, agent_version_exists, AgentVersionRecord, Time,
}
use poker_arena.Persistence.Repository.{
  Repository, Written, has, version_taken, create_agent_version,
}
use poker_arena.Api.Manage.{
  Allocation, allocated, rejected, exhausted, is_taken, version_status, candidate, allocate_version,
  Url, CreateAgentVersionRequest, handle_create_agent_version, is_endpoint_allowed, or_braces,
  max_versions, version_response,
}
use poker_arena.Api.Access.{ServerConfig}
use poker_arena.Api.Replay.{payload, payload-injective}

module _ (ids : ℕ → String) (times : ℕ → Time) (agent_id endpoint_url : String)
    (config_json : List ℕ) where
  abbrev tried : ℕ → AgentVersionRecord
  tried = candidate ids times agent_id endpoint_url config_json

  -- What the loop leaves: the number of the new version is the least from `first` that the agent does
  -- not have.
  abbrev pub Least : Repository → ℕ → ℕ → Repository × Allocation → Type 0
  Least r left first (s, rejected code) = Unit
  Least r left first (s, exhausted) =
      (n : ℕ) → first ≤ n → n < first + left → version_taken agent_id n r.versions ≡ true
  Least r left first (s, allocated x) =
      (s ≡ record r { versions = put x.id x r.versions })
      × (first ≤ x.version)
      × (x.version < first + left)
      × (x ≡ tried x.version)
      × (version_taken agent_id x.version r.versions ≡ false)
      × ((n : ℕ) → first ≤ n → n < x.version → version_taken agent_id n r.versions ≡ true)

  taken_from :
      (r : Repository) (first n : ℕ)
      → version_taken agent_id first r.versions ≡ true
      → (suc first ≤ n → version_taken agent_id n r.versions ≡ true)
      → first ≤ n
      → version_taken agent_id n r.versions ≡ true
  taken_from r first n taken later above = elim (Bool-cases (first == n)) [
    | inl same ↦ let e : first ≡ n = (==_iff first n).0 same in rw (← e) taken
    | inr differs ↦ later (ground (arith, differs, above))
  ]

  Least-widen :
      (r : Repository) (left first : ℕ) (z : Repository × Allocation)
      → version_taken agent_id first r.versions ≡ true
      → Least r left (suc first) z
      → Least r (suc left) first z
  Least-widen r left first (s, rejected code) taken l = tt
  Least-widen r left first (s, exhausted) taken l =
      λ n above below. taken_from r first n taken (λ h. l n h (omega (arith, below))) above
  Least-widen r left first (s, allocated x) taken (done, least, last, from, free, all) = (
    done,
    omega (arith, least),
    omega (arith, last),
    from,
    free,
    λ n above below. taken_from r first n taken (λ h. all n h below) above,
  )

  create-missing :
      (r : Repository) (n : ℕ)
      → has (find agent_id r.agents) ≡ false
      → create_agent_version r (tried n) ≡ (r, some agent_not_found)
  unfolding create_agent_version
  create-missing r n missing = rw (missing, create_agent_version) refl

  create-taken :
      (r : Repository) (n : ℕ)
      → has (find agent_id r.agents) ≡ true
      → version_taken agent_id n r.versions ≡ true
      → create_agent_version r (tried n) ≡ (r, some agent_version_exists)
  unfolding create_agent_version
  create-taken r n there taken = rw (there, taken, create_agent_version) refl

  create-free :
      (r : Repository) (n : ℕ)
      → has (find agent_id r.agents) ≡ true
      → version_taken agent_id n r.versions ≡ false
      → create_agent_version r (tried n)
        ≡ (record r { versions = put (ids n) (tried n) r.versions }, none)
  unfolding create_agent_version
  create-free r n there free = rw (there, free, create_agent_version) refl

  allocate-taken :
      (r : Repository) (left first : ℕ)
      → has (find agent_id r.agents) ≡ true
      → version_taken agent_id first r.versions ≡ true
      → allocate_version r tried (suc left) first ≡ allocate_version r tried left (suc first)
  unfolding allocate_version
  allocate-taken r left first there taken =
      let round : Written → Repository × Allocation = λ done. elim done.1 [
        | none ↦ (done.0, allocated (tried first))
        | some e ↦ elim (is_taken e) [
          | true ↦ allocate_version done.0 tried left (suc first)
          | false ↦ (done.0, rejected (version_status e))
        ]
      ] in
      ap round (create-taken r first there taken)

  allocate_version-Least :
      (r : Repository) (left first : ℕ) → Least r left first (allocate_version r tried left first)
  unfolding allocate_version
  allocate_version-Least r zero first = λ n above below. absurd (omega (arith, above, below))
  allocate_version-Least r (suc left) first = elim (Bool-cases (has (find agent_id r.agents))) [
    | inr missing ↦ rw (create-missing r first missing, allocate_version) tt
    | inl there ↦ elim (Bool-cases (version_taken agent_id first r.versions)) [
      | inr free ↦
          rw (create-free r first there free, allocate_version)
            (
              ap (λ p. p.0) (create-free r first there free),
              omega arith,
              omega arith,
              refl,
              free,
              λ n above below. absurd (omega (arith, above, below)),
            )
      | inl taken ↦ rw (allocate-taken r left first there taken) (
          Least-widen r left first (allocate_version r tried left (suc first)) taken
            (allocate_version-Least r left (suc first)))
    ]
  ]

  answered-Least :
      (r : Repository) (left first : ℕ) (z : Repository × Allocation) {s : Repository}
      {x : AgentVersionRecord}
      → Least r left first z
      → z.0 ≡ s
      → version_response z.1 ≡ payload x
      → (s ≡ record r { versions = put x.id x r.versions })
        × (x.agent_id ≡ agent_id)
        × (x.endpoint_url ≡ endpoint_url)
        × (first ≤ x.version)
        × (version_taken agent_id x.version r.versions ≡ false)
        × ((n : ℕ) → first ≤ n → n < x.version → version_taken agent_id n r.versions ≡ true)
  answered-Least r left first (z, rejected code) l same e = absurd (cc e)
  answered-Least r left first (z, exhausted) l same e = absurd (cc e)
  answered-Least r left first (z, allocated y) {s} {x} (done, least, last, from, free, all) same e =
      elim (Bool-cases (is_empty y.id)) [
        | inl nameless ↦ absurd (cc (rw nameless at e))
        | inr named ↦
            let answer : y ≡ x = payload-injective (rw named at e) in
            subst
              (λ w.
                (s ≡ record r { versions = put w.id w r.versions })
                × (w.agent_id ≡ agent_id)
                × (w.endpoint_url ≡ endpoint_url)
                × (first ≤ w.version)
                × (version_taken agent_id w.version r.versions ≡ false)
                × ((n : ℕ)
                    → first ≤ n
                    → n < w.version
                    → version_taken agent_id n r.versions ≡ true))
              answer
              (
                sym same ∙ done,
                ap (λ w. w.agent_id) from,
                ap (λ w. w.endpoint_url) from,
                least,
                free,
                all,
              )
      ]

-- A version that `handleCreateAgentVersion` answers with is stored under its id, for the agent and
-- with the trimmed address that were asked for, and its number is the least from 1 that the agent does
-- not have yet.
pub handle_create_agent_version-least :
    (config : ServerConfig) (parse_url : String → Option Url) (r s : Repository) (ids : ℕ → String)
    (times : ℕ → Time) (agent_id : String) (req : CreateAgentVersionRequest)
    {x : AgentVersionRecord}
    → handle_create_agent_version config parse_url r ids times agent_id (some req) ≡ (s, payload x)
    → (s ≡ record r { versions = put x.id x r.versions })
      × (x.agent_id ≡ agent_id)
      × (x.endpoint_url ≡ trim_space req.endpoint_url)
      × (1 ≤ x.version)
      × (version_taken agent_id x.version r.versions ≡ false)
      × ((n : ℕ) → 1 ≤ n → n < x.version → version_taken agent_id n r.versions ≡ true)
unfolding handle_create_agent_version
handle_create_agent_version-least config parse_url r s ids times agent_id req {x} e =
    let endpoint_url = trim_space req.endpoint_url in
    elim (Bool-cases (is_endpoint_allowed config (parse_url endpoint_url))) [
      | inr bad ↦ absurd (cc (rw (bad, handle_create_agent_version) at e))
      | inl good ↦
          let e' = rw (good, handle_create_agent_version) at e in
          let json = or_braces req.config_json in
          answered-Least ids times agent_id endpoint_url json r max_versions 1
            (allocate_version r (candidate ids times agent_id endpoint_url json) max_versions 1)
            (allocate_version-Least ids times agent_id endpoint_url json r max_versions 1)
            (ap (λ p. p.0) e') (ap (λ p. p.1) e')
    ]
