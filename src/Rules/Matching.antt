-- ===== src/Rules/Matching.antt =====
-- `VMMatchesRule` against what a rule says in words.
use mathlib.Core.List.{Memᴰ}
use pve_traffic_monitor.Base.{
  ℕ, ◌≡◌, ◌↔◌, ◌⊎◌, inl, inr, refl, sym, ap, ◌∙◌, true, false, not, ◌&&◌, ltb, length, List, [],
  ◌∷◌, arith, ◌==◌, ==_iff, Bool-cases,
}
use pve_traffic_monitor.Base.Text.{Text, text_eq, text_eq_iff, to_lower}
use pve_traffic_monitor.Rules.{Rule, VmInfo, has_id, has_tag, has_any_tag, vm_matches_rule}

has_id_sound : (n : ℕ) (ms : List ℕ) → has_id n ms ≡ true → Memᴰ n ms
unfolding has_id
has_id_sound n [] h = cc
has_id_sound n (m ∷ ms) h = elim (Bool-cases (n == m)) [
  | inl e ↦ Memᴰ.head ((==_iff n m).0 e)
  | inr e ↦ Memᴰ.tail (has_id_sound n ms (ground arith))
]

has_id_complete : (n : ℕ) (ms : List ℕ) → Memᴰ n ms → has_id n ms ≡ true
unfolding has_id
has_id_complete n [] h = elim h [ ]
has_id_complete n (m ∷ ms) (Memᴰ.head e) = ground arith
has_id_complete n (m ∷ ms) (Memᴰ.tail h) = ground (arith, has_id_complete n ms h)

-- Two tags are the same up to the case of their letters.
pub record SharesTag (rule_tags tags : List Text) : Type 0 where
  pub rule_tag : Text
  pub vm_tag : Text
  pub in_rule : Memᴰ rule_tag rule_tags
  pub in_vm : Memᴰ vm_tag tags
  pub same : to_lower vm_tag ≡ to_lower rule_tag

has_tag_sound :
    (t : Text) (tags : List Text)
    → has_tag t tags ≡ true
    → (u : Text) × Memᴰ u tags × (to_lower u ≡ t)
unfolding has_tag
has_tag_sound t [] h = cc
has_tag_sound t (u ∷ tags) h = elim (Bool-cases (text_eq (to_lower u) t)) [
  | inl e ↦ (u, Memᴰ.head refl, (text_eq_iff (to_lower u) t).0 e)
  | inr e ↦ let (v, m, s) = has_tag_sound t tags (ground arith) in (v, Memᴰ.tail m, s)
]

has_tag_complete :
    (t u : Text) (tags : List Text) → Memᴰ u tags → to_lower u ≡ t → has_tag t tags ≡ true
unfolding has_tag
has_tag_complete t u [] h e = elim h [ ]
has_tag_complete t u (v ∷ tags) (Memᴰ.head p) e =
    rw ((text_eq_iff (to_lower v) t).1 (ap to_lower (sym p) ∙ e))
has_tag_complete t u (v ∷ tags) (Memᴰ.tail m) e = ground (arith, has_tag_complete t u tags m e)

has_any_tag_sound :
    (rule_tags tags : List Text) → has_any_tag rule_tags tags ≡ true → SharesTag rule_tags tags
unfolding has_any_tag
has_any_tag_sound [] tags h = cc
has_any_tag_sound (r ∷ rs) tags h = elim (Bool-cases (has_tag (to_lower r) tags)) [
  | inl e ↦
      let (v, m, s) = has_tag_sound (to_lower r) tags e in
      record { rule_tag = r; vm_tag = v; in_rule = Memᴰ.head refl; in_vm = m; same = s }
  | inr e ↦
      let found = has_any_tag_sound rs tags (ground arith) in
      record {
        rule_tag = found.rule_tag;
        vm_tag = found.vm_tag;
        in_rule = Memᴰ.tail found.in_rule;
        in_vm = found.in_vm;
        same = found.same;
      }
]

has_any_tag_complete :
    (r u : Text) (rule_tags tags : List Text)
    → Memᴰ r rule_tags
    → Memᴰ u tags
    → to_lower u ≡ to_lower r
    → has_any_tag rule_tags tags ≡ true
unfolding has_any_tag
has_any_tag_complete r u [] tags h m e = elim h [ ]
has_any_tag_complete r u (q ∷ rs) tags (Memᴰ.head p) m e =
    rw (has_tag_complete (to_lower q) u tags m (e ∙ ap to_lower p))
has_any_tag_complete r u (q ∷ rs) tags (Memᴰ.tail h) m e =
    ground (arith, has_any_tag_complete r u rs tags h m e)

-- What a rule asks of a VM, in words.
pub record Matches {F : Type 0} (vm : VmInfo) (rule : Rule F) : Type 0 where
  pub not_excluded : ¬ Memᴰ vm.vmid rule.exclude_vm_ids
  pub listed : (rule.vm_ids ≡ []) ⊎ Memᴰ vm.vmid rule.vm_ids
  pub tagged : (rule.vm_tags ≡ []) ⊎ SharesTag rule.vm_tags vm.tags

module _ {F : Type 0} (vm : VmInfo) (rule : Rule F) where
  vm_matches_rule_sound : vm_matches_rule vm rule ≡ true → Matches vm rule
  unfolding vm_matches_rule
  vm_matches_rule_sound h = record {
    not_excluded = λ m. ground (arith, has_id_complete vm.vmid rule.exclude_vm_ids m);
    listed = listed rule.vm_ids refl;
    tagged = tagged rule.vm_tags refl;
  }
    where
      listed : (ids : List ℕ) → ids ≡ rule.vm_ids → (rule.vm_ids ≡ []) ⊎ Memᴰ vm.vmid rule.vm_ids
      listed [] e = inl (sym e)
      listed (i ∷ ids) e = inr (has_id_sound vm.vmid rule.vm_ids (ground arith))

      tagged :
          (tags : List Text)
          → tags ≡ rule.vm_tags
          → (rule.vm_tags ≡ []) ⊎ SharesTag rule.vm_tags vm.tags
      tagged [] e = inl (sym e)
      tagged (t ∷ tags) e = inr (has_any_tag_sound rule.vm_tags vm.tags (ground arith))

  vm_matches_rule_complete : Matches vm rule → vm_matches_rule vm rule ≡ true
  unfolding vm_matches_rule
  vm_matches_rule_complete m = rw (ex, li m.listed, ta m.tagged)
    where
      ex : has_id vm.vmid rule.exclude_vm_ids ≡ false
      ex = elim (Bool-cases (has_id vm.vmid rule.exclude_vm_ids)) [
        | inl e ↦ absurd (m.not_excluded (has_id_sound vm.vmid rule.exclude_vm_ids e))
        | inr e ↦ e
      ]

      li :
          (rule.vm_ids ≡ []) ⊎ Memᴰ vm.vmid rule.vm_ids
          → (ltb 0 (length rule.vm_ids) && not (has_id vm.vmid rule.vm_ids)) ≡ false
      li (inl e) = rw e
      li (inr h) = ground (arith, has_id_complete vm.vmid rule.vm_ids h)

      ta :
          (rule.vm_tags ≡ []) ⊎ SharesTag rule.vm_tags vm.tags
          → (ltb 0 (length rule.vm_tags) && not (has_any_tag rule.vm_tags vm.tags)) ≡ false
      ta (inl e) = rw e
      ta (inr h) = ground (
        arith,
        has_any_tag_complete h.rule_tag h.vm_tag rule.vm_tags vm.tags h.in_rule h.in_vm h.same,
      )

-- A VM matches a rule exactly when the rule does not exclude it, the rule lists the VM or lists no
-- VM at all, and the rule shares a tag with the VM, whatever the case of its letters, or has no tag.
pub vm_matches_rule-Matches :
    {F : Type 0} (vm : VmInfo) (rule : Rule F) → (vm_matches_rule vm rule ≡ true) ↔ Matches vm rule
vm_matches_rule-Matches vm rule = (vm_matches_rule_sound vm rule, vm_matches_rule_complete vm rule)
