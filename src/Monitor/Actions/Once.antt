-- ===== src/Monitor/Actions/Once.antt =====
-- Whether an action is done again.
use pve_traffic_monitor.Base.{
  ℕ, ◌≡◌, ◌≢◌, refl, sym, ap, ◌∙◌, Bool, true, false, ◌||◌, List, [], ◌∷◌, any, arith,
}
use pve_traffic_monitor.Base.Float.{Float}
use pve_traffic_monitor.Base.Result.{Result, ok, err}
use pve_traffic_monitor.Base.Split.{Lacks}
use pve_traffic_monitor.Base.Text.{Text, text_eq, text_eq_iff, lower, to_lower, equal_fold}
use pve_traffic_monitor.Clock.{Time}
use pve_traffic_monitor.Models.{Action, TrafficStats}
use pve_traffic_monitor.Rules.{Rule, VmInfo}
use pve_traffic_monitor.Network.{PveError}
use pve_traffic_monitor.Client.{Pve, semicolon, get_vm_tags}
use pve_traffic_monitor.Client.Server.{Answers}
use pve_traffic_monitor.Client.Tags.{carries, tags_at, add_vm_tag_runs}
use pve_traffic_monitor.Storage.Logs.{ActionError}
use pve_traffic_monitor.Monitor.Actions.{
  Power, action_tag, tag_traffic_shutdown, tag_traffic_disconnect, Readings, Acted, tagged_already,
  is_done, tag_after, perform, unless_done, execute_action,
}

-- The actions that leave a tag which is looked for.
abbrev pub IsTagged : Action → Type 0
IsTagged Action.shutdown = Unit
IsTagged Action.stop = Unit
IsTagged Action.disconnect = Unit
IsTagged Action.rate_limit = ⊥
IsTagged (Action.other word) = ⊥

-- What a tag is that is looked for.
record IsTag (tag : Text) : Type 0 where
  whole : Lacks semicolon tag
  lowered : to_lower tag ≡ tag
  is_set : text_eq tag [] ≡ false

shutdown-IsTag : IsTag tag_traffic_shutdown
unfolding to_lower lower text_eq
shutdown-IsTag = record { whole = omega arith; lowered = refl; is_set = refl }

disconnect-IsTag : IsTag tag_traffic_disconnect
unfolding to_lower lower text_eq
disconnect-IsTag = record { whole = omega arith; lowered = refl; is_set = refl }

nonblank : (tag : Text) → text_eq tag [] ≡ false → tag ≢ []
nonblank tag h = λ e. ground (arith, (text_eq_iff tag []).1 e)

equal_fold_refl : (tag : Text) → equal_fold tag tag ≡ true
unfolding equal_fold
equal_fold_refl tag = (text_eq_iff (to_lower tag) (to_lower tag)).1 refl

action_tag-IsTag : (action : Action) → IsTagged action → IsTag (action_tag action)
unfolding action_tag
action_tag-IsTag Action.shutdown h = shutdown-IsTag
action_tag-IsTag Action.stop h = shutdown-IsTag
action_tag-IsTag Action.disconnect h = disconnect-IsTag
action_tag-IsTag Action.rate_limit h = elim h [ ]
action_tag-IsTag (Action.other word) h = elim h [ ]

any-carries :
    (tag : Text) (tags : List Text)
    → to_lower tag ≡ tag
    → any (λ t. text_eq (to_lower t) tag) tags ≡ carries tag tags
unfolding equal_fold
any-carries tag [] h = refl
any-carries tag (t ∷ tags) h =
    rw h (ap (λ b. text_eq (to_lower t) tag || b) (any-carries tag tags h))

module _ (pve : Pve) (fl : Float) (power : Power pve) (server : Answers pve) (vmid : ℕ) where
  tagged_already-carries :
      (tag : Text) (w : pve.World)
      → IsTag tag
      → tagged_already pve fl power vmid tag w ≡ (carries tag (tags_at pve server vmid w), w)
  unfolding get_vm_tags
  tagged_already-carries tag w h =
      rw (h.is_set, server.gets vmid w)
        (ap (λ b. (b, w)) (any-carries tag (tags_at pve server vmid w) h.lowered))

  is_done-carries :
      (rule : Rule fl.F) (action : Action) (w : pve.World)
      → IsTagged action
      → is_done pve fl power vmid rule action w
        ≡ (carries (action_tag action) (tags_at pve server vmid w), w)
  unfolding is_done
  is_done-carries rule Action.shutdown w h =
      tagged_already-carries _ w (action_tag-IsTag Action.shutdown h)
  is_done-carries rule Action.stop w h = tagged_already-carries _ w (action_tag-IsTag Action.stop h)
  is_done-carries rule Action.disconnect w h =
      tagged_already-carries _ w (action_tag-IsTag Action.disconnect h)
  is_done-carries rule Action.rate_limit w h = elim h [ ]
  is_done-carries rule (Action.other word) w h = elim h [ ]

  tag_after-carries :
      (tag : Text) (answer : Result PveError (Unit {0}) × pve.World)
      → IsTag tag
      → (tag_after pve fl power vmid tag answer).0 ≡ ok tt
      → carries tag (tags_at pve server vmid (tag_after pve fl power vmid tag answer).1) ≡ true
  tag_after-carries tag (ok done, w) h e =
      (add_vm_tag_runs pve server vmid tag w h.whole).1 tag (nonblank tag h.is_set)
      ∙ rw (equal_fold_refl tag) (ground arith)
  tag_after-carries tag (err f, w) h e = ground arith

  perform-carries :
      (rule : Rule fl.F) (action : Action) (w : pve.World)
      → IsTagged action
      → (perform pve fl power vmid rule action w).0 ≡ ok tt
      → carries
          (action_tag action)
          (tags_at pve server vmid (perform pve fl power vmid rule action w).1)
        ≡ true
  unfolding perform action_tag
  perform-carries rule Action.shutdown w h e = tag_after-carries _ _ shutdown-IsTag e
  perform-carries rule Action.stop w h e = tag_after-carries _ _ shutdown-IsTag e
  perform-carries rule Action.disconnect w h e = tag_after-carries _ _ disconnect-IsTag e
  perform-carries rule Action.rate_limit w h e = elim h [ ]
  perform-carries rule (Action.other word) w h e = elim h [ ]

module _ (pve : Pve) (fl : Float) (power : Power pve) (server : Answers pve) (vm : VmInfo) where
  abbrev execute :
      Readings
      → Rule fl.F
      → TrafficStats fl.F
      → Time
      → Acted pve fl
      → Result ActionError (Unit {0}) × Acted pve fl
  execute now rule stats creation m = execute_action pve fl power now vm rule stats creation m

  unless_done-carries :
      (now : Readings) (rule : Rule fl.F) (stats : TrafficStats fl.F) (creation : Time)
      (m : Acted pve fl) (done : Bool)
      → IsTagged rule.action
      → done ≡ carries (action_tag rule.action) (tags_at pve server vm.vmid m.world)
      → (unless_done pve fl power now vm rule stats creation m (done, m.world)).0 ≡ ok tt
      → carries (action_tag rule.action) (
          tags_at pve server vm.vmid
            (unless_done pve fl power now vm rule stats creation m (done, m.world)).1.world)
        ≡ true
  unless_done-carries now rule stats creation m true h e o = sym e
  unless_done-carries now rule stats creation m false h e o =
      perform-carries pve fl power server vm.vmid rule rule.action _ h o

  executed-carries :
      (now : Readings) (rule : Rule fl.F) (stats : TrafficStats fl.F) (creation : Time)
      (m : Acted pve fl)
      → IsTagged rule.action
      → (execute now rule stats creation m).0 ≡ ok tt
      → carries
          (action_tag rule.action)
          (tags_at pve server vm.vmid (execute now rule stats creation m).1.world)
        ≡ true
  unfolding execute_action
  executed-carries now rule stats creation m h =
      rw (is_done-carries pve fl power server vm.vmid rule rule.action m.world h) (
        unless_done-carries now rule stats creation m
          (carries (action_tag rule.action) (tags_at pve server vm.vmid m.world)) h refl)

  done_already :
      (now : Readings) (rule : Rule fl.F) (stats : TrafficStats fl.F) (creation : Time)
      (m : Acted pve fl)
      → IsTagged rule.action
      → carries (action_tag rule.action) (tags_at pve server vm.vmid m.world) ≡ true
      → execute now rule stats creation m ≡ (ok tt, m)
  unfolding execute_action
  done_already now rule stats creation m h e =
      rw (is_done-carries pve fl power server vm.vmid rule rule.action m.world h, e) refl

  -- On a server that answers, once a shutdown, a stop or a disconnection of a VM has succeeded, or was
  -- found to be done, any rule's action of the same tag changes nothing: no request is made that
  -- changes the server, no state recorded and nothing logged.
  pub execute_action_once :
      (now later : Readings) (rule again : Rule fl.F) (stats stats' : TrafficStats fl.F)
      (creation creation' : Time) (m : Acted pve fl)
      → IsTagged rule.action
      → IsTagged again.action
      → action_tag again.action ≡ action_tag rule.action
      → (execute_action pve fl power now vm rule stats creation m).0 ≡ ok tt
      → let after = (execute_action pve fl power now vm rule stats creation m).1 in
        execute_action pve fl power later vm again stats' creation' after ≡ (ok tt, after)
  execute_action_once now later rule again stats stats' creation creation' m h k same o =
      let after = (execute now rule stats creation m).1 in
      done_already later again stats' creation' after k (
        ap (λ tag. carries tag (tags_at pve server vm.vmid after.world)) same
        ∙ executed-carries now rule stats creation m h o)
