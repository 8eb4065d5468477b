-- ===== src/Core/Extension/Exact.antt =====
-- crates/dovecote/src/extension.rs: the texts that decode, and the sets that they decode to.
use dovecote.Core.Crates.{Crates}
use dovecote.Core.Codecs.{Codecs}
use dovecote.Core.Extension.Durable
