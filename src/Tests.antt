-- ===== src/Tests.antt =====
-- Runs of the models at concrete inputs.
mod NodeTests
mod CommitTests
mod WalTests
mod StoreTests
mod AuthTests
mod AccessTests
mod ReplayTests
mod MemPebble
mod MvccTests
mod ElectionTests
mod WatchTests
mod PeerTests
mod CheckpointTests
mod RestoreTests
mod LeaseTests
mod KvTests
