-- ===== src/Vm.antt =====
-- Page frames and page tables of src/vm.go.
pub mod Frames
pub mod Tables
