-- ===== src/Threading/Notification.antt =====
-- threading/src/cpp/lib/Notification.hpp and Notification.cpp, and the Waitable that hands
-- notifications out. A callback is a number, and what an operation calls is returned in order.
pub mod Once
pub mod Waiting
use oef_mt_core.Base.{
  ℕ, zero, suc, ◌+◌, Bool, true, false, List, [], ◌∷◌, ◌++◌, Option, none, some, length, get_elem?,
  set, if◌then◌else◌,
}

pub data State : Type 0 where
  waiting success failed timedout : State

pub record Callbacks : Type 0 where
  pub on_success : Option ℕ
  pub on_failure : Option ℕ
  pub on_complete : Option ℕ

abbrev pub no_callbacks : Callbacks
no_callbacks = record { on_success = none; on_failure = none; on_complete = none }

pub record Notification : Type 0 where
  pub state : State
  pub callbacks : Callbacks

-- `Notification::create`
pub create : Notification
create = record { state = waiting; callbacks = no_callbacks }

pub is_waiting : State → Bool
is_waiting waiting = true
is_waiting _ = false

abbrev pub called : Option ℕ → List ℕ
called none = []
called (some cb) = cb ∷ []

-- The handler that the state selects.
abbrev pub handler : State → Callbacks → Option ℕ
handler success c = c.on_success
handler failed c = c.on_failure
handler _ c = none

-- `DispatchCallbacks`: with the notification, the callbacks that ran.
pub dispatch_callbacks : Notification → Notification × List ℕ
dispatch_callbacks n = (
  record n { callbacks = no_callbacks },
  called (handler n.state n.callbacks) ++ called n.callbacks.on_complete,
)

-- `UpdateState`
pub update_state : State → Notification → Notification × List ℕ
update_state s n =
    if is_waiting n.state then dispatch_callbacks (record n { state = s }) else (n, [])

abbrev pub notify : Notification → Notification × List ℕ
notify n = update_state success n

abbrev pub fail : Notification → Notification × List ℕ
fail n = update_state failed n

-- The destructor of a NotificationBuilder that was not cancelled.
pub attach : Callbacks → Notification → Notification × List ℕ
attach c n =
    let given = record n { callbacks = c } in
    if is_waiting n.state then (given, []) else dispatch_callbacks given

-- threading/src/cpp/lib/Waitable.cpp. Notifications are shared: those that were made stand in
-- `made`, and a position in it stands for the pointer.
pub record Waitable : Type 0 where
  pub made : List Notification
  pub waiting_list : List ℕ
  pub is_cancelled : Bool

abbrev pub make_notification : Waitable → Waitable × ℕ
make_notification w = (
  record w {
    made = w.made ++ (create ∷ []);
    waiting_list = w.waiting_list ++ (length w.made ∷ []);
  },
  length w.made,
)

update_at : State → ℕ → List Notification → Option Notification → List Notification × List ℕ
update_at s i made none = (made, [])
update_at s i made (some n) = let (n', ran) = update_state s n in (set made i n', ran)

-- Each waiter in turn.
pub update_each : State → List ℕ → List Notification → List Notification × List ℕ
update_each s [] made = (made, [])
update_each s (i ∷ is) made =
    let (made', ran) = update_at s i made (get_elem? made i) in
    let (made'', more) = update_each s is made' in (made'', ran ++ more)

pub wake : Waitable → Waitable × List ℕ
wake w =
    let (made', ran) = update_each success w.waiting_list w.made in
    (record w { made = made'; waiting_list = [] }, ran)

pub cancel : Waitable → Waitable × List ℕ
cancel w =
    let (made', ran) = update_each failed w.waiting_list w.made in
    (record w { made = made'; waiting_list = []; is_cancelled = true }, ran)

abbrev pub swap : Waitable → Waitable → Waitable × Waitable
swap v w = (
  record v { waiting_list = w.waiting_list; is_cancelled = w.is_cancelled },
  record w { waiting_list = v.waiting_list; is_cancelled = v.is_cancelled },
)
