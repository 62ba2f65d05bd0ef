-- ===== src/Rpc/Server/Connection/Replies.antt =====
-- `process` answers a request with one frame at most.
use ostinato.Base.{ℕ, ◌≤◌, ◌≡◌, ◌⊎◌, none, []}
use ostinato.Rpc.Wire.{response, error}
use ostinato.Rpc.Server.Controller.{Controller}
use ostinato.Rpc.Server.Connection.{Connection}
use ostinato.Rpc.Server.Connection.Writes.{AppendsFrame}

-- A controller holds a blob or a source, never both.
abbrev pub HoldsOne : Controller → Type 0
HoldsOne c = (c.blob ≡ []) ⊎ (c.blob_reader ≡ none)

module _ {S : Type 0} where
  -- The peer can read more by a first part, or all, of one frame for this method: a response, a
  -- binary blob or an error.
  pub record Answers (id : ℕ) (c c' : Connection S) : Type 0 where
    pub type : ℕ
    pub is_reply : (response ≤ type) × (type ≤ error)
    pub frame : AppendsFrame type id c c'
