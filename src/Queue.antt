-- ===== src/Queue.antt =====
-- The FIFO queue of moirae/core/lib/classes/queue.class.ts, and what it stands for.
mod Defs
pub mod Cells
pub mod Fifo
pub mod Runs
unfoldable pub use Defs.{empty, clear, queue_size, dequeue, enqueue}
pub use Defs.{Queue, QueueItem}
