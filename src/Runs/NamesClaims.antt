-- ===== src/Runs/NamesClaims.antt =====
-- Names at concrete inputs.
use rmw_cyclonedds.Base.{◌≡◌, refl, [], ◌∷◌, false, ok, throw, out_of_range}
use rmw_cyclonedds.Names.{
  String, ros_topic_prefix, ros_service_requester_prefix, ros_service_response_prefix,
  request_suffix, reply_suffix, make_fqtopic, demangle_if_ros_topic, demangle_ros_topic_from_topic,
  demangle_service_from_topic, strip_ros_prefix_if_exists, strip_prefixes, has_ros_prefix,
  starts_with, char_at,
}
use rmw_cyclonedds.Names.Topics.{demangle-make_fqtopic, demangle_if_ros_topic-total}

abbrev scan : String
scan = b's' ∷ b'c' ∷ b'a' ∷ b'n' ∷ []

demangle-make_fqtopic_example :
    (demangle_ros_topic_from_topic (make_fqtopic ros_topic_prefix (b'/' ∷ scan) [] false)
      ≡ ok (b'/' ∷ scan))
    × (demangle_service_from_topic
          (make_fqtopic ros_service_requester_prefix (b'/' ∷ scan) request_suffix false)
        ≡ ok (b'/' ∷ scan))
    × (demangle_service_from_topic
          (make_fqtopic ros_service_response_prefix (b'/' ∷ scan) reply_suffix false)
        ≡ ok (b'/' ∷ scan))
    × (demangle_service_from_topic (make_fqtopic ros_topic_prefix (b'/' ∷ scan) [] false) ≡ ok [])
    × (demangle_ros_topic_from_topic
          (make_fqtopic ros_service_requester_prefix (b'/' ∷ scan) request_suffix false)
        ≡ ok [])
    × (demangle_ros_topic_from_topic
          (make_fqtopic ros_service_response_prefix (b'/' ∷ scan) reply_suffix false)
        ≡ ok [])
demangle-make_fqtopic_example = demangle-make_fqtopic scan

demangle_if_ros_topic-total_example :
    (r : String) × (demangle_if_ros_topic (b'r' ∷ b't' ∷ b'x' ∷ []) ≡ ok r)
demangle_if_ros_topic-total_example =
    demangle_if_ros_topic-total (b'r' ∷ b't' ∷ b'x' ∷ []) (λ e. cc) (λ e. cc) (λ e. cc)

-- The bare prefix of the topics.
demangle_if_ros_topic_run : demangle_if_ros_topic ros_topic_prefix ≡ throw out_of_range
unfolding demangle_if_ros_topic strip_ros_prefix_if_exists strip_prefixes has_ros_prefix starts_with
    char_at
demangle_if_ros_topic_run = refl
