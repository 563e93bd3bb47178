-- ===== src/GatewayClient/Filters.antt =====
-- Which commands the subscriptions of a gateway and of a device receive.
use ibmiotf_cpp.Base.{◌≡◌, false, ◌&&◌, [], ◌∷◌, arith}
use ibmiotf_cpp.Text.{Text, codes, text_eq}
use ibmiotf_cpp.Text.Segment.{NoSlash}
use ibmiotf_cpp.Topics.Filter.{levels, matches, matches_levels, levels-segment, levels-last}
use ibmiotf_cpp.Command.Fields.{command_topic}
use ibmiotf_cpp.GatewayClient.{command_filter}

levels-command_filter :
    (t d : Text)
    → NoSlash t
    → NoSlash d
    → levels (command_filter t d)
      ≡ codes "iot-2"
        ∷ (codes "type"
            ∷ (t
                ∷ (codes "id"
                    ∷ (d ∷ (codes "cmd" ∷ (codes "+" ∷ (codes "fmt" ∷ (codes "+" ∷ []))))))))
unfolding command_filter levels codes
levels-command_filter t d ht hd = rw (levels-segment t _ ht, levels-segment d _ hd)

levels-command_topic :
    (t d c f : Text)
    → NoSlash t
    → NoSlash d
    → NoSlash c
    → NoSlash f
    → levels (command_topic t d c f)
      ≡ codes "iot-2"
        ∷ (codes "type" ∷ (t ∷ (codes "id" ∷ (d ∷ (codes "cmd" ∷ (c ∷ (codes "fmt" ∷ (f ∷ []))))))))
unfolding levels codes
levels-command_topic t d c f ht hd hc hf =
    rw (levels-segment t _ ht, levels-segment d _ hd, levels-segment c _ hc, levels-last f hf)

-- The filter that a gateway subscribes for a device, whose type and id are slash-free and no
-- wildcards, receives exactly the commands of that device: among the command topics with slash-free
-- parts, those with this type and this id.
pub matches-command_filter :
    (t d t' d' c f : Text)
    → NoSlash t
    → NoSlash d
    → NoSlash t'
    → NoSlash d'
    → NoSlash c
    → NoSlash f
    → text_eq t (codes "+") ≡ false
    → text_eq t (codes "#") ≡ false
    → text_eq d (codes "+") ≡ false
    → text_eq d (codes "#") ≡ false
    → matches (command_filter t d) (command_topic t' d' c f) ≡ text_eq t t' && text_eq d d'
unfolding matches matches_levels
matches-command_filter t d t' d' c f ht hd ht' hd' hc hf tp th dp dh =
    rw
      (
        levels-command_filter t d ht hd,
        levels-command_topic t' d' c f ht' hd' hc hf,
        th,
        tp,
        dh,
        dp,
      )
      (unfold codes text_eq in ground arith)
