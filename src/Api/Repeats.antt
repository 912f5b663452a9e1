-- ===== src/Api/Repeats.antt =====
-- Requests for histories one after the other, over the cache.
use pve_traffic_monitor.Base.{
  ℕ, ◌+◌, ◌≤◌, ◌≡◌, ◌≢◌, refl, sym, ap, ◌∙◌, List, [], ◌∷◌, Option, none, some, arith,
}
use pve_traffic_monitor.Base.Decimal.{scan_ℤ, scan_ℤ-print_ℤ}
use pve_traffic_monitor.Base.Int.{ℤ}
use pve_traffic_monitor.Base.Maps.{text_Eq, lookup-put_key_self, lookup-put_key_other}
use pve_traffic_monitor.Base.Result.{Result, ok, err}
use pve_traffic_monitor.Base.Text.{Text}
use pve_traffic_monitor.Clock.{Time}
use pve_traffic_monitor.Models.{TrafficRecord}
use pve_traffic_monitor.Database.{drop_bytes}
use pve_traffic_monitor.Api.{Entries, get_cache, set_cache, use_entry}
use pve_traffic_monitor.Api.History.{
  Texts, HistoryRequest, Point, Plan, plan_of, key_rest, cache_key, with_records, with_cached,
  with_plan, handle_history,
}

cache_key-vmid :
    (texts : Texts) (vmid : ℤ) (p : Plan) → scan_ℤ (drop_bytes 8 (cache_key texts vmid p)) ≡ vmid
unfolding cache_key
cache_key-vmid texts vmid p = scan_ℤ-print_ℤ vmid b'_' (key_rest texts p) refl

cache_key-apart :
    (texts : Texts) (vmid vmid' : ℤ) (p p' : Plan)
    → vmid ≢ vmid'
    → cache_key texts vmid p ≢ cache_key texts vmid' p'
cache_key-apart texts vmid vmid' p p' h e = h (
    sym (cache_key-vmid texts vmid p)
    ∙ ap (λ key. scan_ℤ (drop_bytes 8 key)) e
    ∙ cache_key-vmid texts vmid' p')

module _ {A : Type 0} where
  get_cache-set_cache_other :
      (t t' : Time) (key key' : Text) (a : A) (ttl : ℕ) (entries : Entries A)
      → key' ≢ key
      → get_cache t key (set_cache t' key' a ttl entries) ≡ get_cache t key entries
  unfolding get_cache set_cache
  get_cache-set_cache_other t t' key key' a ttl entries h =
      ap (use_entry t) (lookup-put_key_other key key' _ entries h)

  pub get_cache-set_cache :
      (t t' : Time) (key : Text) (a : A) (ttl : ℕ) (entries : Entries A)
      → t ≤ t' + ttl
      → get_cache t key (set_cache t' key a ttl entries) ≡ some a
  unfolding get_cache set_cache
  get_cache-set_cache t t' key a ttl entries h =
      ap (use_entry t) (lookup-put_key_self key _ entries) ∙ ground arith

abbrev pub Store : Type 0
Store = ℤ → Time → Time → Option (List TrafficRecord)

module _ (texts : Texts) where
  -- What a request leaves under the key of another VM.
  with_records-get_cache :
      (vmid vmid' : ℤ) (p p' : Plan) (get : Store) (t t₂ : Time) (entries : Entries (List Point))
      (found : Option (List TrafficRecord))
      → vmid ≢ vmid'
      → get_cache t (cache_key texts vmid' p') (with_records texts get vmid p t₂ entries found).1
        ≡ get_cache t (cache_key texts vmid' p') entries
  with_records-get_cache vmid vmid' p p' get t t₂ entries none h = refl
  with_records-get_cache vmid vmid' p p' get t t₂ entries (some []) h = refl
  with_records-get_cache vmid vmid' p p' get t t₂ entries (some (r ∷ rs)) h =
      get_cache-set_cache_other t t₂ (cache_key texts vmid' p') (cache_key texts vmid p) _
        p.cache_ttl entries (cache_key-apart texts vmid vmid' p p' h)

  with_plan-get_cache :
      (vmid vmid' : ℤ) (plan : Result ℕ Plan) (p' : Plan) (get : Store) (t t₁ t₂ : Time)
      (entries : Entries (List Point))
      → vmid ≢ vmid'
      → get_cache t (cache_key texts vmid' p') (with_plan texts get vmid plan t₁ t₂ entries).1
        ≡ get_cache t (cache_key texts vmid' p') entries
  with_plan-get_cache vmid vmid' (err status) p' get t t₁ t₂ entries h = refl
  with_plan-get_cache vmid vmid' (ok p) p' get t t₁ t₂ entries h =
      go (get_cache t₁ (cache_key texts vmid p) entries)
    where
      go :
          (cached : Option (List Point))
          → get_cache t
              (cache_key texts vmid' p')
              (with_cached texts get vmid p t₂ entries cached).1
            ≡ get_cache t (cache_key texts vmid' p') entries
      go (some points) = refl
      go none = with_records-get_cache vmid vmid' p p' get t t₂ entries _ h

  -- The response depends on the entries by what they have under its key.
  with_records-entries :
      (vmid : ℤ) (p : Plan) (get : Store) (t₂ : Time) (entries entries' : Entries (List Point))
      (found : Option (List TrafficRecord))
      → (with_records texts get vmid p t₂ entries found).0
        ≡ (with_records texts get vmid p t₂ entries' found).0
  with_records-entries vmid p get t₂ entries entries' none = refl
  with_records-entries vmid p get t₂ entries entries' (some []) = refl
  with_records-entries vmid p get t₂ entries entries' (some (r ∷ rs)) = refl

  with_cached-entries :
      (vmid : ℤ) (p : Plan) (get : Store) (t₂ : Time) (entries entries' : Entries (List Point))
      (cached : Option (List Point))
      → (with_cached texts get vmid p t₂ entries cached).0
        ≡ (with_cached texts get vmid p t₂ entries' cached).0
  with_cached-entries vmid p get t₂ entries entries' (some points) = refl
  with_cached-entries vmid p get t₂ entries entries' none =
      with_records-entries vmid p get t₂ entries entries' _

  with_plan-entries :
      (vmid : ℤ) (plan : Result ℕ Plan) (get : Store) (t₁ t₂ : Time)
      (entries entries' : Entries (List Point))
      → ((p : Plan)
          → get_cache t₁ (cache_key texts vmid p) entries
            ≡ get_cache t₁ (cache_key texts vmid p) entries')
      → (with_plan texts get vmid plan t₁ t₂ entries).0
        ≡ (with_plan texts get vmid plan t₁ t₂ entries').0
  with_plan-entries vmid (err status) get t₁ t₂ entries entries' h = refl
  with_plan-entries vmid (ok p) get t₁ t₂ entries entries' h =
      ap (λ cached. (with_cached texts get vmid p t₂ entries cached).0) (h p)
      ∙ with_cached-entries vmid p get t₂ entries entries' _

  -- A request for the history of one VM does not change the response to a request for another VM,
  -- whatever the two ask for and whenever they come: no VM's history is taken from the cache for
  -- another.
  pub handle_history_other :
      (get get' : Store) (now t₁ t₂ now' t₁' t₂' : Time) (q q' : HistoryRequest) (vmid vmid' : ℤ)
      (entries : Entries (List Point))
      → texts.atoi q.vmid_text ≡ some vmid
      → texts.atoi q'.vmid_text ≡ some vmid'
      → vmid ≢ vmid'
      → (handle_history texts get' now' t₁' t₂' q'
          (handle_history texts get now t₁ t₂ q entries).1).0
        ≡ (handle_history texts get' now' t₁' t₂' q' entries).0
  unfolding handle_history
  handle_history_other get get' now t₁ t₂ now' t₁' t₂' q q' vmid vmid' entries a a' h = rw a (
      rw a' (
        with_plan-entries vmid' (plan_of texts now' q') get' t₁' t₂' _ entries
          (λ p'. with_plan-get_cache vmid vmid' (plan_of texts now q) p' get t₁' t₁ t₂ entries h)))
