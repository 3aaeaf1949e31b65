-- ===== src/PubSub.antt =====
-- util/pattern/pubsub/pubsub.go: subscribers by topic. A subscriber is a number. A list element
-- holds a key that genKeyID gave once, so that the key stands for the element's pointer too. Keys
-- stay below 2^64; nil maps, which lazyInit fills, are empty ones.
pub mod Delivery
pub mod Topics
mod Tests
use origin.Prelude.{
  ℕ, zero, suc, ◌+◌, nat_eq, ◌==◌, if◌then◌else◌, Bool, true, false, List, [], ◌∷◌, ◌++◌, Option,
  none, some, lookup, insert, delete,
}

pub record KeyData : Type 0 where
  pub subscriber : ℕ
  pub topic_type : ℕ

-- `key_id` is the package's counter keyID.
pub record Publisher : Type 0 where
  pub key_id : ℕ
  pub subscriber_set : List (ℕ × KeyData)
  pub topic_set : List (ℕ × List ℕ)

abbrev pub new_publisher : Publisher
new_publisher = record { key_id = 0; subscriber_set = []; topic_set = [] }

-- The keys of a topic; a missing list has none.
unfoldable pub keys_in : ℕ → List (ℕ × List ℕ) → List ℕ
keys_in topic topics = elim (lookup topic topics) [ none ↦ [] | some keys ↦ keys ]

abbrev pub keys_of : ℕ → Publisher → List ℕ
keys_of topic pub_ = keys_in topic pub_.topic_set

-- The subscribers behind the keys, in order; a key without one is passed over.
unfoldable pub heard : List (ℕ × KeyData) → List ℕ → List ℕ
heard subs [] = []
heard subs (key ∷ keys) = elim (lookup key subs) [
  | none ↦ heard subs keys
  | some d ↦ d.subscriber ∷ heard subs keys
]

-- The subscribers whose OnEvent is called, in this order.
unfoldable pub publish : ℕ → Publisher → List ℕ
publish topic pub_ = heard pub_.subscriber_set (keys_of topic pub_)

-- The key that OnSubscribe gets; `none` where Subscribe returns false.
unfoldable pub subscribe : ℕ → ℕ → Publisher → Option ℕ × Publisher
subscribe topic sub pub_ =
    if topic == 0
    then (none, pub_)
    else (let key = pub_.key_id + 1 in
        (
          some key,
          record {
            key_id = key;
            subscriber_set =
                insert key (record { subscriber = sub; topic_type = topic }) pub_.subscriber_set;
            topic_set = insert topic (keys_of topic pub_ ++ key ∷ []) pub_.topic_set;
          },
        ))

unfoldable pub delete_all : List ℕ → List (ℕ × KeyData) → List (ℕ × KeyData)
delete_all [] subs = subs
delete_all (key ∷ keys) subs = delete_all keys (delete key subs)

unfoldable pub un_subscribe : ℕ → Publisher → Publisher
un_subscribe topic pub_ = elim (lookup topic pub_.topic_set) [
  | none ↦ pub_
  | some keys ↦ record pub_ {
    subscriber_set = delete_all keys pub_.subscriber_set;
    topic_set = delete topic pub_.topic_set;
  }
]

-- keyList.Remove
unfoldable pub remove_key : ℕ → List ℕ → List ℕ
remove_key key [] = []
remove_key key (k ∷ keys) = if k == key then keys else k ∷ remove_key key keys

unfoldable pub del_key : ℕ → ℕ → List (ℕ × List ℕ) → List (ℕ × List ℕ)
del_key topic key topics = elim (lookup topic topics) [
  | none ↦ topics
  | some keys ↦ insert topic (remove_key key keys) topics
]

unfoldable pub un_subscribe_key : ℕ → Publisher → Publisher
un_subscribe_key key pub_ = elim (lookup key pub_.subscriber_set) [
  | none ↦ pub_
  | some d ↦ record pub_ {
    topic_set = del_key d.topic_type key pub_.topic_set;
    subscriber_set = delete key pub_.subscriber_set;
  }
]
