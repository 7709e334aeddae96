-- ===== src/MemList/Overflow.antt =====
-- What `malloc` of pkg/libc_backends/lib/l4re_mem/mem_list.cc does where rounding a size up wraps.
