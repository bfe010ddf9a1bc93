-- ===== src/Paper/Broker/Names.antt =====
-- tx_trade/orders/paper_broker.py: the names from which `_uuid` makes ids.
--
-- A name is the list of its code points. `uuid5` of the run, and the texts of ids and numbers, stand
-- in the `Broker`.
use Prim.Native.Char.{code}
use Prim.Native.String.{String}
use tx_trader.Common.{ℕ, List, [], ◌∷◌, ◌++◌}
use tx_trader.Paper.Events.{PaperEventType}
use tx_trader.Paper.Broker.State.{Broker}

abbrev codes : String → List ℕ
codes String.[] = []
codes (String.◌∷◌ c s) = code c ∷ codes s

-- The unit separator, `"\x1f"`.
abbrev pub separator : ℕ
separator = 31

-- `"\x1f".join(parts)`
abbrev pub joined : List (List ℕ) → List ℕ
joined [] = []
joined (part ∷ []) = part
joined (part ∷ next ∷ parts) = let rest = joined (next ∷ parts) in part ++ (separator ∷ rest)

-- `_uuid`
abbrev uuid : Broker → List (List ℕ) → ℕ
uuid b parts = b.uuid5 (joined parts)

-- The name of the order with this key.
unfoldable pub order_name : Broker → ℕ × ℕ → List ℕ
order_name b key = joined (codes "order" ∷ b.text key.0 ∷ b.text key.1 ∷ [])

-- `_order_id`
abbrev pub order_id : Broker → ℕ → ℕ → ℕ
order_id b strategy_id client_order_id = b.uuid5 (order_name b (strategy_id, client_order_id))

-- `event_type.value`
abbrev type_text : PaperEventType → List ℕ
type_text PaperEventType.order_accepted = codes "order_accepted"
type_text PaperEventType.order_partially_filled = codes "order_partially_filled"
type_text PaperEventType.order_filled = codes "order_filled"
type_text PaperEventType.order_cancelled = codes "order_cancelled"
type_text PaperEventType.order_rejected = codes "order_rejected"
type_text PaperEventType.fill_recorded = codes "fill_recorded"
type_text PaperEventType.position_changed = codes "position_changed"

-- The id that `_make_event` gives.
unfoldable pub event_id : Broker → ℕ → PaperEventType → ℕ
event_id b sequence event_type =
    uuid b (codes "event" ∷ b.str_int sequence ∷ type_text event_type ∷ [])

-- The id that `_stage_matches` gives a fill.
unfoldable pub fill_id :
    Broker → (order_id session_id ingest_sequence ordinal config_fingerprint : ℕ) → ℕ
fill_id b order_id session_id ingest_sequence ordinal config_fingerprint = uuid b (
    codes "fill"
    ∷ b.str_uuid order_id
    ∷ b.str_uuid session_id
    ∷ b.str_int ingest_sequence
    ∷ b.str_int ordinal
    ∷ b.text config_fingerprint
    ∷ [])
