-- ===== src/Transport/Connection/Opening.antt =====
-- `Attach`, `Connect` and `StartFibers`. What the system calls answer are arguments.
use coro_rpc.Transport.Connection.{Connection, ConnectionState}
use coro_rpc.Transport.Connection.Closing.{close}
use coro_rpc.Transport.Connection.Reader.{start_read}
use coro_rpc.Transport.Connection.Writer.{writer_turn}
use coro_rpc.Base.{if◌then◌else◌, ℕ, Bool, true, false, not, ◌||◌, Option, none, some}

-- `StartFibers`: each coroutine runs up to its first wait. `created` is false where a coroutine could
-- not be created.
unfoldable pub start_fibers : Connection → Bool → Option (Connection × Bool)
start_fibers c created =
    let (reading, reads) = start_read c in
    let running : Option (Connection × Bool) = elim (writer_turn reading) [
      | none ↦ none
      | some (d, w) ↦ some (d, true)
    ] in
    if created then running else some (close c, false)

abbrev pub is_disconnected : ConnectionState → Bool
is_disconnected ConnectionState.disconnected = true
is_disconnected _ = false

-- `Attach`. A negative descriptor is `none`; `configured` says whether the calls of `fcntl` and
-- `setsockopt` have succeeded.
unfoldable pub attach : Connection → Option ℕ → Bool → Bool → Option (Connection × Bool)
attach c none configured created = some (c, false)
attach c (some fd) configured created =
    if not (is_disconnected c.state) || not configured
    then some (c, false)
    else start_fibers (record c { fd = some fd; state = ConnectionState.ready }) created

-- `Connect`. `fd` is what `socket` gives, and `connected` what comes of the wait for the connection,
-- during which calls are refused; no other operation runs meanwhile.
unfoldable pub connect :
    Connection → Bool → Option ℕ → Bool → Bool → Bool → Option (Connection × Bool)
connect c has_address none configured connected created = some (c, false)
connect c has_address (some fd) configured connected created =
    if not (is_disconnected c.state) || (not has_address || not configured)
    then some (c, false)
    else (if connected
        then start_fibers (record c { fd = some fd; state = ConnectionState.ready }) created
        else some (record c { fd = none; state = ConnectionState.disconnected }, false))
