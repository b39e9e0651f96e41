-- ===== src/Memory/Error.antt =====
-- kernel/src/error.rs: `OSError`, the errors of the memory, and `OSResult`.
pub data OsError : Type 0 where
  page_table_virt_not_found page_table_frame_alloc_failed : OsError
  page_table_page_already_mapped page_table_page_not_mapped : OsError
  vm_area_invalid_range vm_area_vm_size_not_equal_to_pm_size : OsError
  page_fault_handler_access_denied page_fault_handler_trap_at_valid_page : OsError
  page_fault_handler_unhandled memory_set_area_not_mapped : OsError
  memory_set_user_mmap_intersect_with_kernel : OsError
  pm_area_out_of_range pm_area_invalid_range pm_area_shrink_failed pm_area_split_failed : OsError
  pm_area_lazy_release_not_allocated_page memory_run_out_of_memory : OsError

pub data Result (A : Type 0) : Type 0 where
  ok : A → Result A
  err : OsError → Result A

-- A result without a value.
abbrev pub Done : Type 0
Done = Result (Unit {0})
