-- ===== src/Protocol/Topics/RoundTrip.antt =====
-- About topicFor and parseDeviceTopic.
use aquarium_controller.Prelude.{
  ℕ, zero, suc, ◌+◌, ◌-◌, ◌≤◌, ◌<◌, ◌≡◌, ◌≢◌, ◌↔◌, refl, sym, ap, ◌∙◌, subst, ◌⊎◌, inl, inr, true,
  false, [], ◌∷◌, ◌++◌, some, arith, Bool-cases, Text, length, length-append, starts_with,
  ends_with, slice, take, drop, drop-append, take-append, take-append-drop, drop-drop,
  starts_with-append, append-of-starts_with, ends_with-append, text_eq, text_eq_sound,
}
use mathlib.Core.List.{append_assoc}
use aquarium_controller.Prelude.Result.{ok}
use aquarium_controller.Protocol.Topics.{
  is_device_id, TopicKind, prefix_of, suffix_of, EspTopicSet, topic_for, parse_device_topic,
}

slice-middle : (p m s : Text) → slice (p ++ (m ++ s)) (length p) (length s) ≡ m
unfolding slice
slice-middle p m s =
    let e : length (p ++ (m ++ s)) - length s - length p ≡ length m =
      omega (arith, length-append p (m ++ s), length-append m s) in
    rw (e, drop-append p (m ++ s), take-append m s)

ends_with-middle : (p m s : Text) → ends_with s (p ++ (m ++ s)) ≡ true
ends_with-middle p m s =
    subst (λ x. ends_with s x ≡ true) (append_assoc p m s) (ends_with-append (p ++ m) s)

parse-topic :
    (t : EspTopicSet) (id : Text) (kind : TopicKind)
    → is_device_id id ≡ true
    → parse_device_topic t (prefix_of t.device_root ++ (id ++ suffix_of kind)) kind ≡ some id
unfolding parse_device_topic
parse-topic t id kind h =
    let p = prefix_of t.device_root in
    let s = suffix_of kind in
    rw (slice-middle p id s, starts_with-append p (id ++ s), ends_with-middle p id s, h)

append-of-ends :
    (s t : Text) → ends_with s t ≡ true → (length s ≤ length t) × (drop (length t - length s) t ≡ s)
unfolding ends_with
append-of-ends s t h = elim (Bool-cases (text_eq (drop (length t - length s) t) s)) [
  | inl e ↦ (ground arith, text_eq_sound _ s e)
  | inr e ↦ absurd (ground arith)
]

take-ne-nil : (n : ℕ) (xs : Text) → take n xs ≢ [] → 0 < n
take-ne-nil zero xs h = absurd (h refl)
take-ne-nil (suc n) xs h = omega arith

slice-parts :
    (p s t : Text)
    → starts_with p t ≡ true
    → ends_with s t ≡ true
    → slice t (length p) (length s) ≢ []
    → t ≡ p ++ (slice t (length p) (length s) ++ s)
unfolding slice
slice-parts p s t hp hs h =
    let n = length t - length s - length p in
    let positive = take-ne-nil n (drop (length p) t) h in
    let (fits, rest) = append-of-ends s t hs in
    let shift : length p + n ≡ length t - length s = omega arith in
    let tail : drop n (drop (length p) t) ≡ s =
      drop-drop n (length p) t ∙ ap (λ k. drop k t) shift ∙ rest in
    sym (append-of-starts_with p t hp)
    ∙ ap (◌++◌ p)
        (sym (take-append-drop n (drop (length p) t)) ∙ ap (◌++◌ (take n (drop (length p) t))) tail)

device_id_nonempty : (id : Text) → is_device_id id ≡ true → id ≢ []
unfolding is_device_id
device_id_nonempty [] h = absurd (cc)
device_id_nonempty (c ∷ cs) h = λ e. cc

topic-parse :
    (t : EspTopicSet) (topic id : Text) (kind : TopicKind)
    → parse_device_topic t topic kind ≡ some id
    → (topic ≡ prefix_of t.device_root ++ (id ++ suffix_of kind)) × (is_device_id id ≡ true)
unfolding parse_device_topic
topic-parse t topic id kind h =
    let p = prefix_of t.device_root in
    let s = suffix_of kind in
    elim (Bool-cases (starts_with p topic)) [
      | inr e ↦ absurd (ground arith)
      | inl a ↦ elim (Bool-cases (ends_with s topic)) [
        | inr e ↦ absurd (ground arith)
        | inl b ↦ elim (Bool-cases (is_device_id (slice topic (length p) (length s)))) [
          | inr e ↦ absurd (ground arith)
          | inl c ↦
              let same : slice topic (length p) (length s) ≡ id = ground arith in
              (
                slice-parts p s topic a b (device_id_nonempty _ c) ∙ ap (λ x. p ++ (x ++ s)) same,
                rw same at c,
              )
        ]
      ]
    ]

-- In each topic set and for each kind of topic: a topic is read as a device exactly if it is the topic
-- that is made for that device.
pub parse_device_topic_iff :
    (t : EspTopicSet) (topic id : Text) (kind : TopicKind)
    → (parse_device_topic t topic kind ≡ some id) ↔ (topic_for t id kind ≡ ok topic)
unfolding topic_for
parse_device_topic_iff t topic id kind = (
  λ h. let (e, v) = topic-parse t topic id kind h in rw (v, e),
  λ h. made (Bool-cases (is_device_id id)) h,
)
  where
    made :
        (is_device_id id ≡ true) ⊎ (is_device_id id ≡ false)
        → topic_for t id kind ≡ ok topic
        → parse_device_topic t topic kind ≡ some id
    made (inl v) h =
        let e : prefix_of t.device_root ++ (id ++ suffix_of kind) ≡ topic = ground arith in
        subst (λ x. parse_device_topic t x kind ≡ some id) e (parse-topic t id kind v)
    made (inr v) h = absurd (ground arith)
