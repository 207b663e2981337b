-- ===== src/Protocol/Topics.antt =====
-- packages/esp-protocol/src/index.ts: espDeviceIdSchema, the topic set, and the reading of a topic.
pub mod RoundTrip
use aquarium_controller.Prelude.{
  ℕ, ◌+◌, ◌-◌, Bool, true, false, not, ◌&&◌, ◌||◌, List, [], ◌∷◌, ◌++◌, Option, none, some,
  if◌then◌else◌, ltb, leb, ◌==◌, Text, codes, length, starts_with, ends_with, includes, slice,
  split,
}
use aquarium_controller.Prelude.Result.{
  Result, ok, throw, type_error, schema_error, guard, ◌>>=◌, ◌>>◌,
}

abbrev between : ℕ → ℕ → ℕ → Bool
between lo hi c = leb lo c && leb c hi

-- [A-Za-z0-9]
abbrev pub is_alphanumeric : ℕ → Bool
is_alphanumeric c = between b'A' b'Z' c || between b'a' b'z' c || between b'0' b'9' c

-- [A-Za-z0-9_-]
abbrev pub is_id_character : ℕ → Bool
is_id_character c = is_alphanumeric c || c == b'_' || c == b'-'

unfoldable pub every : (ℕ → Bool) → Text → Bool
every p [] = true
every p (c ∷ cs) = p c && every p cs

-- espDeviceIdSchema and espRequestIdSchema
unfoldable pub is_device_id : Text → Bool
is_device_id [] = false
is_device_id (c ∷ cs) = leb (length (c ∷ cs)) 128 && is_alphanumeric c && every is_id_character cs

unfoldable pub is_request_id : Text → Bool
unfolding every
is_request_id id = leb 1 (length id) && leb (length id) 64 && every is_id_character id

pub data TopicKind : Type 0 where
  command announce response : TopicKind

abbrev pub kind_name : TopicKind → Text
kind_name command = codes "command"
kind_name announce = codes "announce"
kind_name response = codes "response"

pub some_empty : List Text → Bool
some_empty [] = false
some_empty ([] ∷ rest) = true
some_empty ((c ∷ cs) ∷ rest) = some_empty rest

pub is_namespace : Text → Bool
unfolding some_empty
is_namespace ns = not (
    length ns == 0
    || includes ns 0
    || includes ns b'+'
    || includes ns b'#'
    || some_empty (split b'/' ns))

pub record EspTopicSet : Type 0 where
  pub namespace : Text
  pub device_root : Text
  pub discovery_request : Text
  pub announcement_filter : Text
  pub response_filter : Text
  pub legacy_command : Text
  pub legacy_announcement : Text

unfoldable pub create_esp_topic_set_for_namespace : Text → Result EspTopicSet
unfolding is_namespace
create_esp_topic_set_for_namespace ns = do
  guard (is_namespace ns) type_error
  let root = ns ++ codes "/v1"
  ok (record {
    namespace = ns;
    device_root = root ++ codes "/devices";
    discovery_request = root ++ codes "/discovery/request";
    announcement_filter = (root ++ codes "/devices") ++ codes "/+/announce";
    response_filter = (root ++ codes "/devices") ++ codes "/+/response";
    legacy_command = ns ++ codes "/command";
    legacy_announcement = ns ++ codes "/announce";
  })

unfoldable pub create_esp_topic_set : Bool → Result EspTopicSet
unfolding create_esp_topic_set_for_namespace
create_esp_topic_set test_mode =
    create_esp_topic_set_for_namespace
      (if test_mode then codes "test/aquarium" else codes "aquarium")

-- `${deviceRoot}/` and `/${kind}`
abbrev pub prefix_of : Text → Text
prefix_of root = root ++ codes "/"

abbrev pub suffix_of : TopicKind → Text
suffix_of kind = codes "/" ++ kind_name kind

-- command(), announcement() and response() of a topic set
unfoldable pub topic_for : EspTopicSet → Text → TopicKind → Result Text
topic_for t id kind = do
  guard (is_device_id id) schema_error
  ok (prefix_of t.device_root ++ (id ++ suffix_of kind))

-- parseDeviceTopic, for announcementDeviceId() and responseDeviceId()
unfoldable pub parse_device_topic : EspTopicSet → Text → TopicKind → Option Text
parse_device_topic t topic kind =
    let prefix = prefix_of t.device_root in
    let suffix = suffix_of kind in
    let id = slice topic (length prefix) (length suffix) in
    if not (starts_with prefix topic) || not (ends_with suffix topic)
    then none
    else if is_device_id id
    then some id
    else none
