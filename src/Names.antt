-- ===== src/Names.antt =====
-- Names on the wire: `make_fqtopic` of rmw_cyclonedds_cpp/src/rmw_node.cpp, get_type_name_impl of
-- type_name.cpp, and demangle.cpp. A `std::string` is the list of its characters. The warnings that
-- the source logs are left out.
pub mod Topics
use rmw_cyclonedds.Base.{
  ℕ, zero, suc, ◌+◌, ◌-◌, Bool, true, false, ◌&&◌, not, Option, none, some, List, [], ◌∷◌, ◌++◌,
  length, take, drop, ◌==◌, if◌then◌else◌, Result, ok, throw, out_of_range, ◌>>=◌,
}

abbrev pub String : Type 0
String = List ℕ

abbrev pub ros_topic_prefix : String
ros_topic_prefix = b'r' ∷ b't' ∷ []

abbrev pub ros_service_requester_prefix : String
ros_service_requester_prefix = b'r' ∷ b'q' ∷ []

abbrev pub ros_service_response_prefix : String
ros_service_response_prefix = b'r' ∷ b'r' ∷ []

abbrev pub request_suffix : String
request_suffix = b'R' ∷ b'e' ∷ b'q' ∷ b'u' ∷ b'e' ∷ b's' ∷ b't' ∷ []

abbrev pub reply_suffix : String
reply_suffix = b'R' ∷ b'e' ∷ b'p' ∷ b'l' ∷ b'y' ∷ []

-- `make_fqtopic`.
unfoldable pub make_fqtopic : String → String → String → Bool → String
make_fqtopic prefix topic_name suffix avoid_ros_namespace_conventions =
    if avoid_ros_namespace_conventions
    then topic_name ++ suffix
    else prefix ++ (topic_name ++ suffix)

-- `name.rfind(prefix, 0) == 0`.
unfoldable pub starts_with : String → String → Bool
starts_with name [] = true
starts_with [] (p ∷ prefix) = false
starts_with (x ∷ name) (p ∷ prefix) = x == p && starts_with name prefix

-- `name.at(i)`, which throws behind the end.
unfoldable pub char_at : String → ℕ → Result ℕ
char_at [] i = throw out_of_range
char_at (x ∷ name) zero = ok x
char_at (x ∷ name) (suc i) = char_at name i

-- `name.rfind(s)` and `name.find(s)`: the last and the first position at which `s` stands.
unfoldable pub rfind : String → String → Option ℕ
rfind [] s = if starts_with [] s then some 0 else none
rfind (x ∷ name) s = elim (rfind name s) [
  | some i ↦ some (i + 1)
  | none ↦ if starts_with (x ∷ name) s then some 0 else none
]

-- The test that a prefix is followed by a slash; `at` is only asked where the prefix is there.
unfoldable pub has_ros_prefix : String → String → Result Bool
has_ros_prefix name prefix = elim (starts_with name prefix) [
  | true ↦ do c ← char_at name (length prefix); ok (c == b'/')
  | false ↦ ok false
]

-- `_resolve_prefix`.
unfoldable pub resolve_prefix : String → String → Result String
resolve_prefix name prefix = do
  there ← has_ros_prefix name prefix
  ok (if there then drop (length prefix) name else [])

-- `_strip_ros_prefix_if_exists`, as a loop over the prefixes.
unfoldable pub strip_prefixes : List String → String → Result String
strip_prefixes [] topic_name = ok topic_name
strip_prefixes (prefix ∷ prefixes) topic_name = do
  there ← has_ros_prefix topic_name prefix
  elim there [
    | true ↦ ok (drop (length prefix) topic_name)
    | false ↦ strip_prefixes prefixes topic_name
  ]

unfoldable pub strip_ros_prefix_if_exists : String → Result String
strip_ros_prefix_if_exists =
    strip_prefixes
      (ros_topic_prefix ∷ ros_service_requester_prefix ∷ ros_service_response_prefix ∷ [])

-- `_demangle_if_ros_topic`.
unfoldable pub demangle_if_ros_topic : String → Result String
demangle_if_ros_topic topic_name = strip_ros_prefix_if_exists topic_name

-- `_demangle_ros_topic_from_topic`.
unfoldable pub demangle_ros_topic_from_topic : String → Result String
demangle_ros_topic_from_topic topic_name = resolve_prefix topic_name ros_topic_prefix

unfoldable pub is_empty : String → Bool
is_empty [] = true
is_empty (c ∷ s) = false

-- What is left of a service name without its suffix, which must stand at the end.
unfoldable pub strip_suffix : String → String → String
strip_suffix service_name suffix = elim (rfind service_name suffix) [
  | some position ↦
      if length service_name - position - length suffix == 0 then take position service_name else []
  | none ↦ []
]

-- `_demangle_service_from_topic` of three arguments.
unfoldable pub demangle_service : String → String → String → Result String
demangle_service prefix topic_name suffix = do
  service_name ← resolve_prefix topic_name prefix
  ok (if is_empty service_name then [] else strip_suffix service_name suffix)

unfoldable pub demangle_service_request_from_topic : String → Result String
demangle_service_request_from_topic topic_name =
    demangle_service ros_service_requester_prefix topic_name request_suffix

unfoldable pub demangle_service_reply_from_topic : String → Result String
demangle_service_reply_from_topic topic_name =
    demangle_service ros_service_response_prefix topic_name reply_suffix

-- `_demangle_service_from_topic` of one argument: the reply first, then the request.
unfoldable pub demangle_service_from_topic : String → Result String
demangle_service_from_topic topic_name = do
  demangled_topic ← demangle_service_reply_from_topic topic_name
  elim (is_empty demangled_topic) [
    | true ↦ demangle_service_request_from_topic topic_name
    | false ↦ ok demangled_topic
  ]
