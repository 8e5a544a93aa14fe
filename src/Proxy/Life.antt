-- ===== src/Proxy/Life.antt =====
-- src/udp_proxy.cpp: when the relay can be started, stopped and destroyed without std::terminate.
use disping.Common.{ℕ, ◌≡◌, refl, ◌∙◌, String, true, false, Bool-cases, inl, inr}
use disping.Proxy.{
  UdpProxy, start, give_up, destroy_idle, new_proxy, Step, starts, binds, forwards, stops,
  stops_idle, Steps, here, step,
}

-- The thread can be joined exactly while the proxy runs, and nothing was terminated.
abbrev pub InStep : UdpProxy → Type 0
InStep p = (p.joinable ≡ p.running) × (p.terminated ≡ false)

start-InStep :
    (l : ℕ) (host : String) (r : ℕ) (p : UdpProxy) → InStep p → InStep (start l host r p).1
unfolding start
start-InStep l host r p (e, h) = elim (Bool-cases p.running) [
  | inl on ↦ rw on (e ∙ on, h)
  | inr off ↦ let idle : p.joinable ≡ false = e ∙ off in rw off (rw idle (refl, h))
]

Step-InStep : (p q : UdpProxy) → Step p q → InStep p → InStep q
Step-InStep p q (starts l host r p') h = start-InStep l host r p' h
Step-InStep p q (binds p' at) h = h
Step-InStep p q (forwards n p' at) h = h
Step-InStep p q (stops p' on) h = (refl, h.1)
Step-InStep p q (stops_idle p' off) h = h

Steps-InStep : (p q : UdpProxy) → Steps p q → InStep p → InStep q
Steps-InStep p q (here p') h = h
Steps-InStep p q (step p' m q' run s) h = Step-InStep m q s (Steps-InStep p m run h)

-- As long as the sockets of the workers open and bind, any sequence of starts, stops and
-- relayed packets ends without std::terminate, and so does the destruction of the proxy once
-- it is stopped.
pub destroy_idle-Steps :
    (p : UdpProxy)
    → Steps new_proxy p
    → (p.terminated ≡ false) × (p.running ≡ false → (destroy_idle p).terminated ≡ false)
destroy_idle-Steps p run =
    let (e, h) = Steps-InStep new_proxy p run (refl, refl) in
    (h, λ off. let idle : p.joinable ≡ false = e ∙ off in rw idle h)

-- A worker that gives up leaves a thread that nobody joins: after any sequence of steps that
-- leaves the proxy running, if the worker then gives up, the next start as well as the
-- destruction of the proxy call std::terminate, and a Stop in between changes nothing.
pub start-give_up :
    (p : UdpProxy) (l : ℕ) (host : String) (r : ℕ)
    → Steps new_proxy p
    → p.running ≡ true
    → ((start l host r (give_up p)).1.terminated ≡ true)
      × ((destroy_idle (give_up p)).terminated ≡ true)
      × Step (give_up p) (give_up p)
unfolding start
start-give_up p l host r run on =
    let (e, h) = Steps-InStep new_proxy p run (refl, refl) in
    let held : p.joinable ≡ true = e ∙ on in
    (rw held refl, rw held refl, stops_idle (give_up p) refl)
