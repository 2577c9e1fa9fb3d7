-- ===== src/Presets/Kafka/Topics.antt =====
-- The messages of each topic.
use gnomock.Base.{Text, List, ◌≡◌, none, ◌↔◌, false}
use gnomock.Base.Groups.{of_key, items_of, has_key, group_by_lem}
use gnomock.Presets.Kafka.{Message, messages_by_topics}
use gnomock.Base.Assoc.{NodupKeys, lookup}

-- The map of the messages by their topics: its keys are distinct, a topic is one of them exactly
-- when some message has it, and it holds the messages of the topic in their order.
pub messages_by_topics_lem :
    (messages : List Message)
    → NodupKeys (messages_by_topics messages)
      × ((t : Text)
          → ((lookup t (messages_by_topics messages) ≡ none)
              ↔ (has_key (λ m. m.topic) t messages ≡ false))
            × (of_key t (messages_by_topics messages) ≡ items_of (λ m. m.topic) t messages))
unfolding messages_by_topics
messages_by_topics_lem messages = group_by_lem (λ m. m.topic) messages
