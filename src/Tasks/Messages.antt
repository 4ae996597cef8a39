-- ===== src/Tasks/Messages.antt =====
-- AgentQueueRepository and ChatroomRepository of modules/sql/orchestration_repository.py.
use model_weaver.Base.{
  ℕ, ◌+◌, String, Bool, true, false, ◌&&◌, Option, none, some, List, [], ◌∷◌, ◌++◌, select, map,
  update_where, order_by, limit, length, leb, ltb, nat_beq, if◌then◌else◌,
}

pub data MessageStatus : Type 0 where
  todo read archived : MessageStatus

-- A row of agent_queue; no receiver is a broadcast.
pub record QueuedMessage : Type 0 where
  pub queue_id : ℕ
  pub from_agent_id : ℕ
  pub to_agent_id : Option ℕ
  pub topic : Option String
  pub content : String
  pub message_type : String
  pub status : MessageStatus
  pub created_at : ℕ

pub record AgentQueue : Type 0 where
  pub rows : List QueuedMessage
  pub next_id : ℕ

abbrev pub put_message :
    AgentQueue
    → (now from_id : ℕ) (to_id : Option ℕ) (topic : Option String) (content message_type : String)
    → AgentQueue
put_message db now from_id to_id topic content message_type = record db {
  next_id = db.next_id + 1;
  rows =
      db.rows
      ++ record {
        queue_id = db.next_id;
        from_agent_id = from_id;
        to_agent_id = to_id;
        topic = topic;
        content = content;
        message_type = message_type;
        status = todo;
        created_at = now;
      }
        ∷ [];
}

-- AgentQueueRepository.send_direct
unfoldable pub send_direct :
    AgentQueue → (now from_id to_id : ℕ) (content message_type : String) → AgentQueue
send_direct db now from_id to_id content message_type =
    put_message db now from_id (some to_id) none content message_type

-- AgentQueueRepository.send_broadcast
unfoldable pub send_broadcast :
    AgentQueue
    → (now from_id : ℕ) (content : String) (topic : Option String) (message_type : String)
    → AgentQueue
send_broadcast db now from_id content topic message_type =
    put_message db now from_id none topic content message_type

abbrev pub is_unread : MessageStatus → Bool
is_unread todo = true
is_unread _ = false

-- status = 'TODO' AND (to_agent_id = ? OR to_agent_id IS NULL)
abbrev pub is_unread_by : ℕ → QueuedMessage → Bool
is_unread_by agent_id m =
    is_unread m.status && elim m.to_agent_id [ none ↦ true | some to ↦ nat_beq to agent_id ]

-- AgentQueueRepository.poll_inbox, without the names of the senders
unfoldable pub poll_inbox : AgentQueue → (agent_id count : ℕ) → List QueuedMessage
unfolding order_by
poll_inbox db agent_id count =
    limit count
      (order_by (λ s r. leb s.created_at r.created_at) (select (is_unread_by agent_id) db.rows))

abbrev pub is_message : ℕ → QueuedMessage → Bool
is_message queue_id m = nat_beq m.queue_id queue_id

abbrev pub set_message : MessageStatus → ℕ → AgentQueue → AgentQueue
set_message status queue_id db = record db {
  rows = update_where (is_message queue_id) (λ m. record m { status = status }) db.rows;
}

-- AgentQueueRepository.mark_read
unfoldable pub mark_read : AgentQueue → (queue_id : ℕ) → AgentQueue
mark_read db queue_id = set_message read queue_id db

-- AgentQueueRepository.mark_archived
unfoldable pub mark_archived : AgentQueue → (queue_id : ℕ) → AgentQueue
mark_archived db queue_id = set_message archived queue_id db

-- AgentQueueRepository.count_unread
unfoldable pub count_unread : AgentQueue → (agent_id : ℕ) → ℕ
count_unread db agent_id = length (select (is_unread_by agent_id) db.rows)

-- A row of chatroom_messages; a message without a thread stands at the top.
pub record RoomMessage : Type 0 where
  pub message_id : ℕ
  pub agent_id : ℕ
  pub thread_id : Option ℕ
  pub content : String
  pub created_at : ℕ

pub record Chatroom : Type 0 where
  pub rows : List RoomMessage
  pub next_id : ℕ

-- ChatroomRepository.post
unfoldable pub post :
    Chatroom → (now agent_id : ℕ) (content : String) (thread_id : Option ℕ) → Chatroom
post db now agent_id content thread_id = record db {
  next_id = db.next_id + 1;
  rows =
      db.rows
      ++ record {
        message_id = db.next_id;
        agent_id = agent_id;
        thread_id = thread_id;
        content = content;
        created_at = now;
      }
        ∷ [];
}

abbrev pub answers : ℕ → RoomMessage → Bool
answers message_id m = elim m.thread_id [ none ↦ false | some t ↦ nat_beq t message_id ]

-- ChatroomRepository.get_thread
unfoldable pub get_thread : Chatroom → (message_id : ℕ) → List RoomMessage
unfolding order_by
get_thread db message_id =
    order_by (λ s r. leb s.created_at r.created_at)
      (select (λ m. if nat_beq m.message_id message_id then true else answers message_id m) db.rows)

-- ChatroomRepository.get_recent: the messages, each with the number of its answers
unfoldable pub get_recent : Chatroom → (count : ℕ) → List (RoomMessage × ℕ)
unfolding order_by
get_recent db count =
    map (λ (m : RoomMessage). (m, length (select (answers m.message_id) db.rows)))
      (limit count (
        order_by (λ s r. leb r.created_at s.created_at)
          (select (λ (m : RoomMessage). elim m.thread_id [ none ↦ true | some t ↦ false ])
            db.rows)))

-- ChatroomRepository.get_by_agent
unfoldable pub messages_of_agent : Chatroom → (agent_id count : ℕ) → List RoomMessage
unfolding order_by
messages_of_agent db agent_id count = limit count (
    order_by (λ s r. leb r.created_at s.created_at)
      (select (λ m. nat_beq m.agent_id agent_id) db.rows))

-- ChatroomRepository.count_since
unfoldable pub count_since : Chatroom → (since : ℕ) → ℕ
count_since db since = length (select (λ m. ltb since m.created_at) db.rows)
