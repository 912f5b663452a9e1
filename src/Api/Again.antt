-- ===== src/Api/Again.antt =====
-- A request for a history that is sent again, and the errors of the handler.
use pve_traffic_monitor.Base.{
  ℕ, ◌+◌, ◌≤◌, ◌≡◌, ◌≢◌, ◌↔◌, ◌||◌, refl, sym, subst, ap, ◌∙◌, inl, inr, Bool, true, false, not,
  ◌&&◌, List, [], ◌∷◌, ◌++◌, Option, none, some, Bool-cases, arith, if◌then◌else◌,
}
use pve_traffic_monitor.Base.Decimal.{print_ℤ}
use pve_traffic_monitor.Base.Int.{ℤ}
use pve_traffic_monitor.Base.Maps.{text_Eq}
use pve_traffic_monitor.Base.Result.{Result, ok, err}
use pve_traffic_monitor.Base.Text.{Text, codes}
use pve_traffic_monitor.Clock.{Time}
use pve_traffic_monitor.Models.{PeriodType, TrafficRecord}
use pve_traffic_monitor.Api.{Entries, get_cache, is_empty}
use pve_traffic_monitor.Api.History.{
  Texts, HistoryRequest, HistoryResponse, refused, no_records, history, Point, Plan, plan_of,
  plan_preset, custom_range, period_of, or_word, key_rest, cache_key, with_records, with_cached,
  with_plan, with_vmid, handle_history, internal_error,
}
use pve_traffic_monitor.Api.Repeats.{Store, get_cache-set_cache}

module _ (texts : Texts) where
  -- Two plans under one key.
  abbrev SamePlan : Result ℕ Plan → Result ℕ Plan → Type 0
  SamePlan (ok p) (ok p') = (key_rest texts p ≡ key_rest texts p') × (p.period ≡ p'.period)
  SamePlan (ok p) (err status) = ⊥
  SamePlan (err status) plan = Unit

  SamePlan-refl : (plan : Result ℕ Plan) → SamePlan plan plan
  SamePlan-refl (ok p) = (refl, refl)
  SamePlan-refl (err status) = tt

  plan_preset-SamePlan :
      (now now' : Time) (period : PeriodType)
      → SamePlan (plan_preset now period) (plan_preset now' period)
  unfolding plan_preset
  plan_preset-SamePlan now now' PeriodType.minute = (refl, refl)
  plan_preset-SamePlan now now' PeriodType.hour = (refl, refl)
  plan_preset-SamePlan now now' PeriodType.day = (refl, refl)
  plan_preset-SamePlan now now' PeriodType.month = (refl, refl)
  plan_preset-SamePlan now now' (PeriodType.other s) = tt

  plan_of-SamePlan :
      (now now' : Time) (q : HistoryRequest) → SamePlan (plan_of texts now q) (plan_of texts now' q)
  unfolding plan_of
  plan_of-SamePlan now now' q = elim (Bool-cases (not (is_empty q.start) && not (is_empty q.end))) [
    | inl e ↦ rw e (SamePlan-refl _)
    | inr e ↦ rw e (plan_preset-SamePlan now now' _)
  ]

  again :
      (get : Store) (vmid : ℤ) (p : Plan) (plan : Result ℕ Plan) (t₁ t₂ : Time)
      (entries : Entries (List Point)) (points : List Point)
      → SamePlan (ok p) plan
      → get_cache t₁ (cache_key texts vmid p) entries ≡ some points
      → with_plan texts get vmid plan t₁ t₂ entries ≡ (history points p.period true, entries)
  unfolding cache_key
  again get vmid p (err status) t₁ t₂ entries points same h = elim same [ ]
  again get vmid p (ok p') t₁ t₂ entries points same h =
      let found : get_cache t₁ (cache_key texts vmid p') entries ≡ some points =
        ap (λ rest. get_cache t₁ (codes "history_" ++ (print_ℤ vmid ++ (b'_' ∷ rest))) entries)
          (sym same.0)
        ∙ h in
      ap (with_cached texts get vmid p' t₂ entries) found
      ∙ ap (λ period. (history points period true, entries)) (sym same.1)

  history-injective :
      {points points' : List Point} {period period' : PeriodType} {b b' : Bool}
      → history points period b ≡ history points' period' b'
      → (points ≡ points') × (b ≡ b')
  history-injective e = (ap points_in e, ap is_cached e)
    where
      points_in : HistoryResponse → List Point
      points_in (history points period b) = points
      points_in _ = []

      is_cached : HistoryResponse → Bool
      is_cached (history points period b) = b
      is_cached _ = true

  with_cached-stored :
      (get : Store) (vmid : ℤ) (p : Plan) (t t₂ : Time) (entries : Entries (List Point))
      (points : List Point) (period : PeriodType) (cached : Option (List Point))
      → (with_cached texts get vmid p t₂ entries cached).0 ≡ history points period false
      → t ≤ t₂ + p.cache_ttl
      → get_cache t (cache_key texts vmid p) (with_cached texts get vmid p t₂ entries cached).1
        ≡ some points
  with_cached-stored get vmid p t t₂ entries points period (some old) h l =
      let wrong : true ≡ false = (history-injective h).1 in cc wrong
  with_cached-stored get vmid p t t₂ entries points period none h l =
      go (get vmid p.start_time p.end_time) h
    where
      go :
          (found : Option (List TrafficRecord))
          → (with_records texts get vmid p t₂ entries found).0 ≡ history points period false
          → get_cache t (cache_key texts vmid p) (with_records texts get vmid p t₂ entries found).1
            ≡ some points
      go none e = let wrong : refused internal_error ≡ history points period false = e in cc wrong
      go (some []) e = let wrong : no_records p.period ≡ history points period false = e in cc wrong
      go (some (r ∷ rs)) e =
          get_cache-set_cache t t₂ (cache_key texts vmid p) _ p.cache_ttl entries l
          ∙ ap some (history-injective e).0

  -- A request whose response is made from records, sent again while the response is kept, is answered
  -- with the same data, marked as cached, whatever the storage has by then, and leaves the cache.
  pub handle_history_again :
      (get get' : Store) (now t₁ t₂ now' t₁' t₂' : Time) (q : HistoryRequest) (vmid : ℤ) (p : Plan)
      (points : List Point) (entries : Entries (List Point))
      → texts.atoi q.vmid_text ≡ some vmid
      → plan_of texts now q ≡ ok p
      → (handle_history texts get now t₁ t₂ q entries).0 ≡ history points p.period false
      → t₁' ≤ t₂ + p.cache_ttl
      → let left = (handle_history texts get now t₁ t₂ q entries).1 in
        handle_history texts get' now' t₁' t₂' q left ≡ (history points p.period true, left)
  unfolding handle_history
  handle_history_again get get' now t₁ t₂ now' t₁' t₂' q vmid p points entries a planned made l =
      let same =
        subst (λ plan. SamePlan plan (plan_of texts now' q)) planned
          (plan_of-SamePlan now now' q) in
      let made' =
        subst
          (λ plan. (with_plan texts get vmid plan t₁ t₂ entries).0 ≡ history points p.period false)
          planned
          (subst
            (λ v.
              (with_vmid texts get v (plan_of texts now q) t₁ t₂ entries).0
              ≡ history points p.period false)
            a made) in
      rw a (
        rw planned (
          again get' vmid p (plan_of texts now' q) t₁' t₂' _ points same
            (with_cached-stored get vmid p t₁' t₂ entries points p.period _ made' l)))

  abbrev pub is_missing : {A : Type 0} → Option A → Bool
  is_missing none = true
  is_missing (some a) = false

  abbrev pub is_unknown : PeriodType → Bool
  is_unknown (PeriodType.other word) = true
  is_unknown _ = false

  -- An identifier that is no number, a custom range whose start or end is no time, or a period that is
  -- none of the four words.
  abbrev pub is_bad_request : HistoryRequest → Bool
  is_bad_request q =
      let custom = not (is_empty q.start) && not (is_empty q.end) in
      let no_range =
        is_missing (texts.parse_rfc3339 q.start) || is_missing (texts.parse_rfc3339 q.end) in
      let no_period = is_unknown (period_of (or_word q.period (codes "day"))) in
      is_missing (texts.atoi q.vmid_text) || (if custom then no_range else no_period)

  -- The plan is refused with the status 400 exactly if the test holds.
  abbrev Refuses : Bool → Result ℕ Plan → Type 0
  Refuses bad (ok p) = bad ≡ false
  Refuses bad (err status) = (bad ≡ true) × (status ≡ 400)

  custom_range-Refuses :
      (granularity : Text) (start end : Option Time)
      → Refuses (is_missing start || is_missing end) (custom_range granularity start end)
  custom_range-Refuses granularity none end = (refl, refl)
  custom_range-Refuses granularity (some start) none = (refl, refl)
  custom_range-Refuses granularity (some start) (some end) = refl

  plan_preset-Refuses :
      (now : Time) (period : PeriodType) → Refuses (is_unknown period) (plan_preset now period)
  unfolding plan_preset
  plan_preset-Refuses now PeriodType.minute = refl
  plan_preset-Refuses now PeriodType.hour = refl
  plan_preset-Refuses now PeriodType.day = refl
  plan_preset-Refuses now PeriodType.month = refl
  plan_preset-Refuses now (PeriodType.other s) = (refl, refl)

  abbrev status_of : HistoryResponse → ℕ
  status_of (refused status) = status
  status_of _ = 200

  with_records_accepted :
      (get : Store) (vmid : ℤ) (p : Plan) (t₂ : Time) (entries : Entries (List Point))
      (found : Option (List TrafficRecord))
      → (with_records texts get vmid p t₂ entries found).0 ≢ refused 400
  with_records_accepted get vmid p t₂ entries none e =
      let wrong : internal_error ≡ 400 = ap status_of e in omega (arith, wrong)
  with_records_accepted get vmid p t₂ entries (some []) e =
      let wrong : no_records p.period ≡ refused 400 = e in cc wrong
  with_records_accepted get vmid p t₂ entries (some (r ∷ rs)) e =
      let wrong : history _ p.period false ≡ refused 400 = e in cc wrong

  with_cached_accepted :
      (get : Store) (vmid : ℤ) (p : Plan) (t₂ : Time) (entries : Entries (List Point))
      (cached : Option (List Point))
      → (with_cached texts get vmid p t₂ entries cached).0 ≢ refused 400
  with_cached_accepted get vmid p t₂ entries (some points) e =
      let wrong : history points p.period true ≡ refused 400 = e in cc wrong
  with_cached_accepted get vmid p t₂ entries none e =
      with_records_accepted get vmid p t₂ entries _ e

  with_vmid-refused :
      (get : Store) (vmid : Option ℤ) (bad : Bool) (plan : Result ℕ Plan) (t₁ t₂ : Time)
      (entries : Entries (List Point))
      → Refuses bad plan
      → ((is_missing vmid || bad) ≡ true)
        ↔ (with_vmid texts get vmid plan t₁ t₂ entries ≡ (refused 400, entries))
  with_vmid-refused get none bad plan t₁ t₂ entries h = (λ e. refl, λ e. ground arith)
  with_vmid-refused get (some vmid) bad (err status) t₁ t₂ entries h =
      (λ e. ap (λ s. (refused s, entries)) h.1, λ e. ground (arith, h.0))
  with_vmid-refused get (some vmid) bad (ok p) t₁ t₂ entries h = (
    (λ e.
        let holds : bad ≡ true = e in
        let fails : bad ≡ false = h in let wrong : true ≡ false = sym holds ∙ fails in cc wrong),
    (λ e. elim (with_cached_accepted get vmid p t₂ entries _ (ap (λ r. r.0) e)) [ ]),
  )

  -- The handler refuses a request with the status 400, and leaves the cache, exactly if its identifier is
  -- none that strconv.Atoi reads, it has a custom range whose start or end is no time, or it has none and a period that is
  -- none of the four words.
  pub handle_history-is_bad_request :
      (get : Store) (now t₁ t₂ : Time) (q : HistoryRequest) (entries : Entries (List Point))
      → (is_bad_request q ≡ true)
        ↔ (handle_history texts get now t₁ t₂ q entries ≡ (refused 400, entries))
  unfolding handle_history plan_of
  handle_history-is_bad_request get now t₁ t₂ q entries =
      elim (Bool-cases (not (is_empty q.start) && not (is_empty q.end))) [
        | inl e ↦
            rw e
              (with_vmid-refused get _ _ _ t₁ t₂ entries (custom_range-Refuses q.granularity _ _))
        | inr e ↦ rw e (with_vmid-refused get _ _ _ t₁ t₂ entries (plan_preset-Refuses now _))
      ]
