-- ===== src/Kernel/Domain/Creation.antt =====
-- capstone.c, `ioctl_create_dom`: what fits into the memory that it allocates.
use caplifive_buildroot.Base.{ℕ, ◌+◌, ◌*◌, ◌^◌, ◌≤◌, ◌<◌, ◌≡◌, arith}
use caplifive_buildroot.Base.Words.{page_size, add64}
use caplifive_buildroot.Kernel.Table.Create.{order_fits}
use caplifive_buildroot.Kernel.Domain.{domain_data_size, dom_order}

-- The block that is allocated for a domain holds its code and its data, unless the sum wraps.
pub dom_order_fits :
    (code_len : ℕ)
    → code_len + domain_data_size < 2 ^ 64
    → code_len + domain_data_size ≤ 2 ^ dom_order code_len * page_size
unfolding dom_order
dom_order_fits code_len h =
    let e : add64 code_len domain_data_size ≡ code_len + domain_data_size = omega arith in
    rw e (order_fits (code_len + domain_data_size) (omega arith) h).0
