-- ===== src/Net/Addresses.antt =====
-- What the addresses of a session come from, and the connection with a time limit.
use vtun.Common.{
  ℕ, ◌==◌, ◌%◌, ◌^◌, ◌-◌, ◌≡◌, ◌↔◌, ◌⊎◌, refl, ap, inl, inr, Bytes, Bool, true, false, Option, none,
  some, pos, negsuc, if◌then◌else◌, take, arith,
}
use vtun.Session.{VtunAddr, vtun_addr_iface}
use vtun.Net.{
  Connect, connected, in_progress, refused, Ready, ready, timed_out, connect_t, getifaddr, Names,
  addr_of, generic_addr,
}

so_error-zero : (n : ℕ) → (if n == 0 then pos 0 else negsuc 0) ≡ pos 0 → n ≡ 0
so_error-zero n h = ground arith

-- `connect_t` answers 0 exactly where the socket could be set not to block, the connection was not
-- refused at once, and within the time the socket was ready without an error; where it answers 0 the socket
-- has the flags that it had.
pub connect_t-succeeds :
    (sets : Bool) (answer : Connect) (r : Ready) (sock_flags : ℕ)
    → ((connect_t sets answer r sock_flags).0 ≡ pos 0) ↔ (
        (sets ≡ true)
        × ((answer ≡ connected) ⊎ (answer ≡ in_progress))
        × (r ≡ ready 0)
        × ((connect_t sets answer r sock_flags) ≡ (pos 0, sock_flags)))
unfolding connect_t
connect_t-succeeds false answer r f = (λ h. ground (arith, h), λ h. ground (arith, h.0))
connect_t-succeeds true refused r f = (
  λ h. ground (arith, h),
  λ h. elim h.1 [ inl a ↦ ground (arith, a) | inr a ↦ ground (arith, a) ],
)
connect_t-succeeds true connected timed_out f = (λ h. ground (arith, h), λ h. ground (arith, h.2))
connect_t-succeeds true in_progress timed_out f = (λ h. ground (arith, h), λ h. ground (arith, h.2))
connect_t-succeeds true connected (ready n) f = (
  λ h. (refl, inl refl, ap (λ z. ready z) (so_error-zero n h), ap (λ z. (z, f)) h),
  λ h. ap (λ z. z.0) h.3,
)
connect_t-succeeds true in_progress (ready n) f = (
  λ h. (refl, inr refl, ap (λ z. ready z) (so_error-zero n h), ap (λ z. (z, f)) h),
  λ h. ap (λ z. z.0) h.3,
)

getifaddr_unfound :
    (socket : Bool) (ioctl : Bytes → Option ℕ) (name : Bytes)
    → (socket ≡ false) ⊎ (ioctl (take 15 name) ≡ none)
    → getifaddr socket ioctl name ≡ 2 ^ 64 - 1
unfolding getifaddr
getifaddr_unfound socket ioctl name (inl h) = rw (h, getifaddr) refl
getifaddr_unfound true ioctl name (inr h) = rw (h, getifaddr) refl
getifaddr_unfound false ioctl name (inr h) = refl

-- The address of an interface that cannot be found is taken for found: where there is no socket to ask
-- by, or the ioctl fails, `generic_addr` succeeds with the address 255.255.255.255.
pub generic_addr-broadcast :
    (ns : Names) (vaddr : VtunAddr)
    → (vaddr.kind == vtun_addr_iface) ≡ true
    → (ns.socket ≡ false) ⊎ (ns.ioctl (take 15 vaddr.name) ≡ none)
    → generic_addr ns vaddr ≡ some (record { addr = 2 ^ 32 - 1; port = vaddr.port % 2 ^ 16 })
unfolding generic_addr addr_of
generic_addr-broadcast ns vaddr iface h =
    ground (arith, iface, getifaddr_unfound ns.socket ns.ioctl vaddr.name h)
