-- ===== src/Names/Topics.antt =====
-- Topic and service names there and back: `make_fqtopic` and demangle.cpp.
use rmw_cyclonedds.Base.{
  ℕ, ◌-◌, ◌<◌, ◌≡◌, refl, ap, arith, Bool, true, false, none, some, List, [], ◌∷◌, ◌++◌, length,
  drop, ◌==◌, ok, throw, out_of_range, eq→==, ==→eq, length-append, append-nil, Bool-cases, inl,
  inr,
}
use rmw_cyclonedds.Names.{
  String, ros_topic_prefix, ros_service_requester_prefix, ros_service_response_prefix,
  request_suffix, reply_suffix, make_fqtopic, starts_with, char_at, rfind, has_ros_prefix,
  resolve_prefix, strip_ros_prefix_if_exists, strip_prefixes, demangle_if_ros_topic,
  demangle_ros_topic_from_topic, is_empty, strip_suffix, demangle_service,
  demangle_service_request_from_topic, demangle_service_reply_from_topic,
  demangle_service_from_topic,
}
use rmw_cyclonedds.TriviallySerialized.Dense.{and_parts}
use rmw_cyclonedds.Reader.Cursors.{take_front, drop_front}

starts_with_append : (p s : String) → starts_with (p ++ s) p ≡ true
unfolding starts_with
starts_with_append [] s = refl
starts_with_append (x ∷ p) s = rw (eq→== x x refl, starts_with_append p s) refl

starts_with_self : (p : String) → starts_with p p ≡ true
unfolding starts_with
starts_with_self [] = refl
starts_with_self (x ∷ p) = rw (eq→== x x refl, starts_with_self p) refl

starts_with_short : (s p : String) → length s < length p → starts_with s p ≡ false
unfolding starts_with
starts_with_short s [] h = absurd (omega arith)
starts_with_short [] (c ∷ p) h = refl
starts_with_short (x ∷ s) (c ∷ p) h = rw (starts_with_short s p (omega arith)) (ground arith)

rfind_short : (s p : String) → length s < length p → rfind s p ≡ none
unfolding rfind
rfind_short [] p h = rw (starts_with_short [] p h) refl
rfind_short (x ∷ s) p h = rw (rfind_short s p (omega arith), starts_with_short (x ∷ s) p h) refl

-- Whatever stands before it, the last place of a suffix is the end.
rfind_end : (s : String) (c : ℕ) (p : String) → rfind (s ++ (c ∷ p)) (c ∷ p) ≡ some (length s)
unfolding rfind
rfind_end [] c p = rw (rfind_short p (c ∷ p) (omega arith), starts_with_self (c ∷ p)) refl
rfind_end (x ∷ s) c p = rw (rfind_end s c p) (ap some (omega arith))

char_at_append : (p : String) (c : ℕ) (s : String) → char_at (p ++ (c ∷ s)) (length p) ≡ ok c
unfolding char_at
char_at_append [] c s = refl
char_at_append (x ∷ p) c s = char_at_append p c s

has_ros_prefix_append : (p s : String) → has_ros_prefix (p ++ (b'/' ∷ s)) p ≡ ok true
unfolding has_ros_prefix
has_ros_prefix_append p s =
    rw (has_ros_prefix, starts_with_append p (b'/' ∷ s), char_at_append p b'/' s) refl

pub resolve_prefix-append : (p s : String) → resolve_prefix (p ++ (b'/' ∷ s)) p ≡ ok (b'/' ∷ s)
unfolding resolve_prefix
resolve_prefix-append p s =
    rw (resolve_prefix, has_ros_prefix_append p s, drop_front p (b'/' ∷ s)) refl

at_end : (s t : String) → (length (s ++ t) - length s - length t == 0) ≡ true
at_end s t = eq→== _ 0 (omega (arith, length-append s t))

strip_suffix_append : (s : String) (c : ℕ) (t : String) → strip_suffix (s ++ (c ∷ t)) (c ∷ t) ≡ s
unfolding strip_suffix
strip_suffix_append s c t =
    rw (strip_suffix, rfind_end s c t, at_end s (c ∷ t), take_front s (c ∷ t)) refl

demangle_service-append :
    (p s : String) (c : ℕ) (t : String)
    → demangle_service p (p ++ (b'/' ∷ (s ++ (c ∷ t)))) (c ∷ t) ≡ ok (b'/' ∷ s)
unfolding demangle_service is_empty
demangle_service-append p s c t =
    rw (resolve_prefix-append p (s ++ (c ∷ t)), strip_suffix_append (b'/' ∷ s) c t) refl

-- A topic with the prefix of the topics, or of the requests, is no topic of the other kinds.
reply_of_topic : (s : String) → demangle_service_from_topic (ros_topic_prefix ++ s) ≡ ok []
unfolding demangle_service_from_topic demangle_service_reply_from_topic
    demangle_service_request_from_topic demangle_service resolve_prefix has_ros_prefix starts_with
    is_empty
reply_of_topic s = refl

reply_of_request :
    (s : String) → demangle_service_reply_from_topic (ros_service_requester_prefix ++ s) ≡ ok []
unfolding demangle_service_reply_from_topic demangle_service resolve_prefix has_ros_prefix
    starts_with is_empty
reply_of_request s = refl

topic_of_request :
    (s : String) → demangle_ros_topic_from_topic (ros_service_requester_prefix ++ s) ≡ ok []
unfolding demangle_ros_topic_from_topic resolve_prefix has_ros_prefix starts_with
topic_of_request s = refl

topic_of_reply :
    (s : String) → demangle_ros_topic_from_topic (ros_service_response_prefix ++ s) ≡ ok []
unfolding demangle_ros_topic_from_topic resolve_prefix has_ros_prefix starts_with
topic_of_reply s = refl

service_of_request :
    (s : String)
    → demangle_service_from_topic (ros_service_requester_prefix ++ (b'/' ∷ (s ++ request_suffix)))
      ≡ ok (b'/' ∷ s)
unfolding demangle_service_from_topic demangle_service_request_from_topic is_empty
service_of_request s =
    rw (reply_of_request (b'/' ∷ (s ++ request_suffix)))
      (demangle_service-append ros_service_requester_prefix s _ _)

service_of_reply :
    (s : String)
    → demangle_service_from_topic (ros_service_response_prefix ++ (b'/' ∷ (s ++ reply_suffix)))
      ≡ ok (b'/' ∷ s)
unfolding demangle_service_from_topic demangle_service_reply_from_topic is_empty
service_of_reply s =
    rw (demangle_service-append ros_service_response_prefix s b'R' (b'e' ∷ b'p' ∷ b'l' ∷ b'y' ∷ []))
      refl

topic_of_topic :
    (s : String)
    → demangle_ros_topic_from_topic (ros_topic_prefix ++ (b'/' ∷ (s ++ []))) ≡ ok (b'/' ∷ s)
unfolding demangle_ros_topic_from_topic
topic_of_topic s = rw (append-nil s) (resolve_prefix-append ros_topic_prefix s)

-- For every name that starts with a slash, as ROS names do: the topic name, the request topic and the
-- reply topic that `make_fqtopic` makes of it are demangled to the name again, the topic name is no
-- service's, and the service topics are no topic's.
pub demangle-make_fqtopic :
    (s : String)
    → (demangle_ros_topic_from_topic (make_fqtopic ros_topic_prefix (b'/' ∷ s) [] false)
        ≡ ok (b'/' ∷ s))
      × (demangle_service_from_topic
            (make_fqtopic ros_service_requester_prefix (b'/' ∷ s) request_suffix false)
          ≡ ok (b'/' ∷ s))
      × (demangle_service_from_topic
            (make_fqtopic ros_service_response_prefix (b'/' ∷ s) reply_suffix false)
          ≡ ok (b'/' ∷ s))
      × (demangle_service_from_topic (make_fqtopic ros_topic_prefix (b'/' ∷ s) [] false) ≡ ok [])
      × (demangle_ros_topic_from_topic
            (make_fqtopic ros_service_requester_prefix (b'/' ∷ s) request_suffix false)
          ≡ ok [])
      × (demangle_ros_topic_from_topic
            (make_fqtopic ros_service_response_prefix (b'/' ∷ s) reply_suffix false)
          ≡ ok [])
unfolding make_fqtopic
demangle-make_fqtopic s = (
  topic_of_topic s,
  service_of_request s,
  service_of_reply s,
  reply_of_topic (b'/' ∷ (s ++ [])),
  topic_of_request (b'/' ∷ (s ++ request_suffix)),
  topic_of_reply (b'/' ∷ (s ++ reply_suffix)),
)

at_or_behind :
    (name p : String)
    → starts_with name p ≡ true
    → ¬ (name ≡ p)
    → (c : ℕ) × (char_at name (length p) ≡ ok c)
unfolding starts_with char_at
at_or_behind [] [] h n = absurd (n refl)
at_or_behind (x ∷ name) [] h n = (x, refl)
at_or_behind [] (c ∷ p) h n = cc
at_or_behind (x ∷ name) (c ∷ p) h n =
    let (h₁, h₂) = and_parts _ _ h in at_or_behind name p h₂ λ e. n (rw (==→eq x c h₁, e) refl)

has_ros_prefix_answer :
    (name p : String) → ¬ (name ≡ p) → (b : Bool) × (has_ros_prefix name p ≡ ok b)
unfolding has_ros_prefix
has_ros_prefix_answer name p n = elim (Bool-cases (starts_with name p)) [
  | inl h ↦
      let (c, found) = at_or_behind name p h n in (c == b'/', rw (has_ros_prefix, h, found) refl)
  | inr h ↦ (false, rw (has_ros_prefix, h) refl)
]

char_at-length : (p : String) → char_at p (length p) ≡ throw out_of_range
unfolding char_at
char_at-length [] = refl
char_at-length (x ∷ p) = char_at-length p

-- A topic that is named exactly like the prefix makes `_resolve_prefix` throw `std::out_of_range`.
pub resolve_prefix-itself : (p : String) → resolve_prefix p p ≡ throw out_of_range
unfolding resolve_prefix has_ros_prefix
resolve_prefix-itself p =
    rw (resolve_prefix, has_ros_prefix, starts_with_self p, char_at-length p) refl

strip_prefixes_answer :
    (name p : String) (ps : List String)
    → ¬ (name ≡ p)
    → (r : String) × (strip_prefixes ps name ≡ ok r)
    → (r : String) × (strip_prefixes (p ∷ ps) name ≡ ok r)
unfolding strip_prefixes
strip_prefixes_answer name p ps n (r, h) =
    let (b, found) = has_ros_prefix_answer name p n in
    elim (Bool-cases b) [
      | inl yes_b ↦ (drop (length p) name, rw (found, yes_b) refl)
      | inr no_b ↦ (r, rw (found, no_b) h)
    ]

-- `_demangle_if_ros_topic` gives an answer for every name but the three prefixes themselves.
pub demangle_if_ros_topic-total :
    (name : String)
    → ¬ (name ≡ ros_topic_prefix)
    → ¬ (name ≡ ros_service_requester_prefix)
    → ¬ (name ≡ ros_service_response_prefix)
    → (r : String) × (demangle_if_ros_topic name ≡ ok r)
unfolding demangle_if_ros_topic strip_ros_prefix_if_exists strip_prefixes
demangle_if_ros_topic-total name n₁ n₂ n₃ =
    strip_prefixes_answer name ros_topic_prefix
      (ros_service_requester_prefix ∷ ros_service_response_prefix ∷ []) n₁
      (strip_prefixes_answer name ros_service_requester_prefix (ros_service_response_prefix ∷ []) n₂
        (strip_prefixes_answer name ros_service_response_prefix [] n₃ (name, refl)))
