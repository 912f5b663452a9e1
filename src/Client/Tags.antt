-- ===== src/Client/Tags.antt =====
-- The tags of a VM: what removing, adding and the tag of a rule leave.
use pve_traffic_monitor.Base.{
  ℕ, ◌≡◌, ◌≢◌, inl, inr, refl, sym, ap, ◌∙◌, Bool, true, false, not, ◌&&◌, ◌||◌, List, [], ◌∷◌,
  ◌++◌, keep, any, All, All-append, All-keep, map, Option, none, some, ◌==◌, Bool-cases, arith,
  if◌then◌else◌,
}
use pve_traffic_monitor.Base.Float.{Float}
use pve_traffic_monitor.Base.Result.{Result, ok}
use pve_traffic_monitor.Base.Split.{Lacks, split-Lacks, split-join}
use pve_traffic_monitor.Base.Text.{
  Text, codes, text_eq, text_eq_iff, lower, to_lower, to_lower_idem, equal_fold, split, join,
}
use pve_traffic_monitor.Network.{PveError, lookup_text}
use pve_traffic_monitor.Client.{
  Pve, tags_key, semicolon, tags_of, get_vm_tags, set_vm_tags, add_vm_tag, remove_vm_tag, rule_tag,
  auto_tag_by_traffic_with_rule,
}
use pve_traffic_monitor.Client.Server.{Answers, lookup_text-assign_self}

-- Among the tags is this one, in any case of its letters.
abbrev pub carries : Text → List Text → Bool
carries tag tags = any (λ t. equal_fold t tag) tags

abbrev pub AllWhole : List Text → Type 0
AllWhole tags = All (Lacks semicolon) tags

equal_fold_same : (a b c : Text) → equal_fold a b ≡ true → equal_fold a c ≡ equal_fold b c
unfolding equal_fold
equal_fold_same a b c h =
    ap (λ l. text_eq l (to_lower c)) ((text_eq_iff (to_lower a) (to_lower b)).0 h)

equal_fold-to_lower : (a b : Text) → equal_fold (to_lower a) b ≡ equal_fold a b
unfolding equal_fold
equal_fold-to_lower a b = ap (λ l. text_eq l (to_lower b)) (to_lower_idem a)

equal_fold-to_lower_right : (a b : Text) → equal_fold a (to_lower b) ≡ equal_fold a b
unfolding equal_fold
equal_fold-to_lower_right a b = ap (text_eq (to_lower a)) (to_lower_idem b)

equal_fold_blank : (t : Text) → t ≢ [] → equal_fold [] t ≡ false
unfolding equal_fold to_lower text_eq
equal_fold_blank [] h = elim (h refl) [ ]
equal_fold_blank (c ∷ t) h = refl

carries-map : (t : Text) (tags : List Text) → carries t (map to_lower tags) ≡ carries t tags
carries-map t [] = refl
carries-map t (u ∷ tags) = cc (equal_fold-to_lower u t, carries-map t tags)

carries-append :
    (t : Text) (tags new : List Text) → carries t (tags ++ new) ≡ (carries t tags || carries t new)
carries-append t [] new = refl
carries-append t (u ∷ tags) new = ground (arith, carries-append t tags new)

carries-keep :
    (t tag : Text) (tags : List Text)
    → carries t (keep (λ u. not (equal_fold u tag)) tags)
      ≡ (carries t tags && not (equal_fold t tag))
carries-keep t tag [] = refl
carries-keep t tag (u ∷ tags) = ground (arith, carries-keep t tag tags, equal_fold_same u t tag)

carries_same :
    (t tag : Text) (tags : List Text)
    → equal_fold tag t ≡ true
    → carries tag tags ≡ true
    → carries t tags ≡ true
carries_same t tag [] e h = h
carries_same t tag (u ∷ tags) e h =
    ground (arith, carries_same t tag tags e, equal_fold_same u tag t)

carries_present :
    (t tag : Text) (tags : List Text)
    → carries (to_lower tag) tags ≡ true
    → carries t tags ≡ (carries t tags || equal_fold tag t)
carries_present t tag tags e =
    ground (arith, carries_same t (to_lower tag) tags, equal_fold-to_lower tag t)

equal_fold_sym : (a b : Text) → equal_fold a b ≡ equal_fold b a
unfolding equal_fold
equal_fold_sym a b =
    ground (arith, text_eq_iff (to_lower a) (to_lower b), text_eq_iff (to_lower b) (to_lower a))

lower-Lacks : (tag : Text) → Lacks semicolon tag → Lacks semicolon (to_lower tag)
unfolding to_lower lower
lower-Lacks [] h = tt
lower-Lacks (c ∷ tag) h = (ground arith, lower-Lacks tag h.1)

dashes-Lacks :
    (name : Text)
    → Lacks semicolon name
    → Lacks semicolon (map (λ c. if c == 32 then b'-' else c) name)
dashes-Lacks [] h = tt
dashes-Lacks (c ∷ name) h = (ground arith, dashes-Lacks name h.1)

rule_tag-Lacks : (name : Text) → Lacks semicolon name → Lacks semicolon (rule_tag name)
unfolding rule_tag
rule_tag-Lacks name h =
    All-append (λ c. c ≢ semicolon) (codes "traffic-limit-") _ (omega arith)
      (lower-Lacks _ (dashes-Lacks name h))

lower-AllWhole : (tags : List Text) → AllWhole tags → AllWhole (map to_lower tags)
lower-AllWhole [] h = tt
lower-AllWhole (t ∷ tags) h = (lower-Lacks t h.0, lower-AllWhole tags h.1)

-- What is written is read back, but for a tag that is blank.
carries-tags_of :
    (t : Text) (tags : List Text)
    → t ≢ []
    → AllWhole tags
    → carries t (tags_of (some (join semicolon tags))) ≡ carries t tags
unfolding join split text_eq
carries-tags_of t [] h w = refl
carries-tags_of t (u ∷ tags) h w = elim (Bool-cases (text_eq (join semicolon (u ∷ tags)) [])) [
  | inl e ↦ rw e (
      sym (
        ap (carries t)
          (sym (split-join semicolon u tags w) ∙ ap (split semicolon) ((text_eq_iff _ []).0 e))
        ∙ ap (λ b. b || false) (equal_fold_blank t h)))
  | inr e ↦ rw e (ap (carries t) (split-join semicolon u tags w))
]

tags_of-AllWhole : (o : Option Text) → AllWhole (tags_of o)
tags_of-AllWhole none = tt
tags_of-AllWhole (some s) = elim (Bool-cases (text_eq s [])) [
  | inl e ↦ rw e tt
  | inr e ↦ rw e (split-Lacks semicolon s)
]

module _ (pve : Pve) (server : Answers pve) (vmid : ℕ) where
  abbrev pub tags_at : pve.World → List Text
  tags_at w = tags_of (lookup_text tags_key (server.configs w vmid))

  -- The request was answered, and then exactly these tags are there.
  abbrev pub EndsWith : Result PveError (Unit {0}) × pve.World → (Text → Bool) → Type 0
  EndsWith (r, w) there = (r ≡ ok tt) × ((t : Text) → t ≢ [] → carries t (tags_at w) ≡ there t)

  set_vm_tags_runs :
      (tags : List Text) (w : pve.World)
      → AllWhole tags
      → EndsWith (set_vm_tags pve vmid tags w) (λ t. carries t tags)
  unfolding set_vm_tags
  set_vm_tags_runs tags w h = (
    server.puts vmid tags_key (join semicolon (map to_lower tags)) w,
    λ t nonblank.
        ap (λ config. carries t (tags_of (lookup_text tags_key config)))
          (server.keeps vmid tags_key (join semicolon (map to_lower tags)) w)
        ∙ ap (λ o. carries t (tags_of o))
            (lookup_text-assign_self tags_key (join semicolon (map to_lower tags))
              (server.configs w vmid))
        ∙ carries-tags_of t (map to_lower tags) nonblank (lower-AllWhole tags h)
        ∙ carries-map t tags,
  )

  remove_vm_tag_runs :
      (tag : Text) (w : pve.World)
      → EndsWith
          (remove_vm_tag pve vmid tag w)
          (λ t. carries t (tags_at w) && not (equal_fold t tag))
  unfolding remove_vm_tag get_vm_tags
  remove_vm_tag_runs tag w = rw (server.gets vmid w) (
      let kept = keep (λ t. not (equal_fold t (to_lower tag))) (tags_at w) in
      let runs = set_vm_tags_runs kept w (All-keep _ _ (tags_at w) (tags_of-AllWhole _)) in
      (
        runs.0,
        λ t nonblank.
            runs.1 t nonblank
            ∙ carries-keep t (to_lower tag) (tags_at w)
            ∙ ap (λ b. carries t (tags_at w) && not b) (equal_fold-to_lower_right t tag),
      ))

  pub add_vm_tag_runs :
      (tag : Text) (w : pve.World)
      → Lacks semicolon tag
      → EndsWith (add_vm_tag pve vmid tag w) (λ t. carries t (tags_at w) || equal_fold tag t)
  unfolding add_vm_tag get_vm_tags
  add_vm_tag_runs tag w h =
      rw (server.gets vmid w) (elim (Bool-cases (carries (to_lower tag) (tags_at w))) [
        | inl e ↦ rw e (refl, λ t nonblank. carries_present t tag (tags_at w) e)
        | inr e ↦ rw e (
            let runs = set_vm_tags_runs (tags_at w ++ (to_lower tag ∷ [])) w (
              All-append _ (tags_at w) (to_lower tag ∷ []) (tags_of-AllWhole _)
                (lower-Lacks tag h, tt)) in
            (
              runs.0,
              λ t nonblank.
                  runs.1 t nonblank
                  ∙ carries-append t (tags_at w) (to_lower tag ∷ [])
                  ∙ ground (arith, equal_fold-to_lower tag t),
            ))
      ])

  -- After a rule's traffic is compared with its threshold, the VM has the rule's tag exactly if the
  -- traffic is above, has every other tag that is not blank exactly if it had it before, and no error
  -- is returned. The server answers every request, and the rule's name has no semicolon.
  pub auto_tag_by_traffic_with_rule_lem :
      (fl : Float) (traffic threshold : fl.F) (rule_name t : Text) (w : pve.World)
      → Lacks semicolon rule_name
      → t ≢ []
      → let done = auto_tag_by_traffic_with_rule pve fl vmid traffic threshold rule_name w in
        (done.0 ≡ ok tt)
        × (carries t (tags_at done.1) ≡ (
            if equal_fold (rule_tag rule_name) t
            then fl.lt threshold traffic
            else carries t (tags_at w)))
  unfolding auto_tag_by_traffic_with_rule
  auto_tag_by_traffic_with_rule_lem fl traffic threshold rule_name t w h nonblank =
      let tag = rule_tag rule_name in
      let removed = remove_vm_tag_runs tag w in
      let w1 = (remove_vm_tag pve vmid tag w).1 in
      let added = add_vm_tag_runs tag w1 (rule_tag-Lacks rule_name h) in
      elim (Bool-cases (fl.lt threshold traffic)) [
        | inl e ↦ rw e (
          added.0,
          added.1 t nonblank ∙ ground (arith, removed.1 t nonblank, equal_fold_sym t tag),
        )
        | inr e ↦ rw e (refl, removed.1 t nonblank ∙ ground (arith, equal_fold_sym t tag))
      ]
