-- ===== src/Sync.antt =====
-- The kernel's own synchronisation objects: the bounded queues of src/kthread_queue.go and the
-- keyboard ring of src/keyboard_irq.go.
pub mod Queue
pub mod Keyboard
