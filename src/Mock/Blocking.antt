-- ===== src/Mock/Blocking.antt =====
-- What blocking and unblocking do to the list of blocked users.
use giblet.Blocked
use giblet.Session.{Session}
