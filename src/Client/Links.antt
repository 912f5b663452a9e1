-- ===== src/Client/Links.antt =====
-- The recorded states of links: what they say of a configuration, and when an operation writes.
use pve_traffic_monitor.Base.{
  ◌≡◌, inl, inr, ◌⊎◌, refl, ap, ◌∙◌, Bool, true, false, not, ◌||◌, List, [], ◌∷◌, any, map, length,
  Option, none, some, ◌==◌, Bool-cases, arith,
}
use pve_traffic_monitor.Base.Maps.{lookup, text_Eq}
use pve_traffic_monitor.Base.Text.{Text, text_eq, text_eq_iff}
use pve_traffic_monitor.Network.{Config, lookup_text, link_of, add_state, network_link_down_states}
use pve_traffic_monitor.Client.{link_set}
use pve_traffic_monitor.Client.Updates.{writes_one, writes}

abbrev pub is_in : List Text → Text → Bool
is_in keys k = any (λ j. text_eq j k) keys

abbrev pub map_link : (Bool → Bool) → Option Bool → Option Bool
map_link g none = none
map_link g (some b) = some (g b)

abbrev pub map_links : (Bool → Bool) → List (Text × Bool) → List (Text × Bool)
map_links g states = map (λ s. (s.0, g s.1)) states

pub map_links_same : (states : List (Text × Bool)) → map_links (λ b. b) states ≡ states
map_links_same [] = refl
map_links_same (s ∷ states) = ap (λ r. s ∷ r) (map_links_same states)

-- What is read of the links depends only on what is read of each interface.
pub states_agree :
    (g : Bool → Bool) (keys : List Text) (before after : Config)
    → ((k : Text)
        → is_in keys k ≡ true
        → link_of (lookup_text k after) ≡ map_link g (link_of (lookup_text k before)))
    → network_link_down_states keys after ≡ map_links g (network_link_down_states keys before)
unfolding network_link_down_states
states_agree g [] before after h = refl
states_agree g (key ∷ keys) before after h = rw (h key (ground (arith, text_eq_iff key key))) (
    go (link_of (lookup_text key before)) _ _
      (states_agree g keys before after (λ k m. h k (ground arith))))
  where
    go :
        (o : Option Bool) (r s : List (Text × Bool))
        → s ≡ map_links g r
        → add_state key (map_link g o) s ≡ map_links g (add_state key o r)
    go none r s e = e
    go (some b) r s e = ap (λ l. (key, g b) ∷ l) e

lookup-add_state_other :
    (j k : Text) (o : Option Bool) (states : List (Text × Bool))
    → text_eq j k ≡ false
    → lookup k (add_state j o states) ≡ lookup k states
unfolding lookup
lookup-add_state_other j k none states h = refl
lookup-add_state_other j k (some b) states h = rw h refl

lookup-add_state_same :
    (k : Text) (o : Option Bool) (states : List (Text × Bool))
    → (lookup k states ≡ none) ⊎ (lookup k states ≡ o)
    → lookup k (add_state k o states) ≡ o
unfolding lookup
lookup-add_state_same k none states (inl h) = h
lookup-add_state_same k none states (inr h) = h
lookup-add_state_same k (some b) states h = rw ((text_eq_iff k k).1 refl) refl

lookup-states_either :
    (keys : List Text) (config : Config) (k : Text)
    → (lookup k (network_link_down_states keys config) ≡ none)
      ⊎ (lookup k (network_link_down_states keys config) ≡ link_of (lookup_text k config))
unfolding network_link_down_states lookup
lookup-states_either [] config k = inl refl
lookup-states_either (j ∷ keys) config k = elim (Bool-cases (text_eq j k)) [
  | inl q ↦ inr (
      ap
        (λ i.
          lookup k
            (add_state i (link_of (lookup_text i config)) (network_link_down_states keys config)))
        ((text_eq_iff j k).0 q)
      ∙ lookup-add_state_same k (link_of (lookup_text k config)) _
          (lookup-states_either keys config k))
  | inr q ↦
      rw
        (lookup-add_state_other j k (link_of (lookup_text j config))
          (network_link_down_states keys config) q)
        (lookup-states_either keys config k)
]

pub lookup-states :
    (keys : List Text) (config : Config) (k : Text)
    → is_in keys k ≡ true
    → lookup k (network_link_down_states keys config) ≡ link_of (lookup_text k config)
unfolding network_link_down_states
lookup-states [] config k m = ground arith
lookup-states (j ∷ keys) config k m = elim (Bool-cases (text_eq j k)) [
  | inl q ↦
      ap
        (λ i.
          lookup k
            (add_state i (link_of (lookup_text i config)) (network_link_down_states keys config)))
        ((text_eq_iff j k).0 q)
      ∙ lookup-add_state_same k (link_of (lookup_text k config)) _
          (lookup-states_either keys config k)
  | inr q ↦
      lookup-add_state_other j k (link_of (lookup_text j config))
        (network_link_down_states keys config) q
      ∙ lookup-states keys config k (rw q at m)
]

pub any_agree :
    (p q : Text → Bool) (keys : List Text)
    → ((k : Text) → is_in keys k ≡ true → p k ≡ q k)
    → any p keys ≡ any q keys
any_agree p q [] h = refl
any_agree p q (j ∷ keys) h =
    cc (h j (ground (arith, text_eq_iff j j)), any_agree p q keys (λ k m. h k (ground arith)))

pub writes-link_set :
    (b : Bool) (keys : List Text) (config : Config)
    → writes (link_set b) config keys ≡ not (length (network_link_down_states keys config) == 0)
unfolding writes network_link_down_states
writes-link_set b [] config = refl
writes-link_set b (key ∷ keys) config = go (lookup_text key config) (writes-link_set b keys config)
  where
    go :
        (o : Option Text)
        → writes (link_set b) config keys ≡ not (length (network_link_down_states keys config) == 0)
        → (writes_one (link_set b) config (elim o [ none ↦ none | some s ↦ link_set b key s ])
            || writes (link_set b) config keys)
          ≡ not (length (add_state key (link_of o) (network_link_down_states keys config)) == 0)
    go none e = e
    go (some s) e = ground arith
