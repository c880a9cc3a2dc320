-- ===== src/DeviceTree/Nested.antt =====
-- What the reader does at the end of a node that has a child: it still has the notes of the child.
use ax_kernel.Prelude.{
  none, sym, leb, ltb, ◌==◌, ◌&&◌, ℕ, ◌+◌, ◌≤◌, ◌<◌, ◌≡◌, some, List, [], ◌∷◌, ◌++◌, length, refl,
  arith, true, ap, ◌∙◌,
}
use ax_kernel.DeviceTree.{Found, parse_dtb}
use ax_kernel.DeviceTree.Layout.{
  nop_token, Token, begin_token, end_token, prop_token, Property, reg, IsTree, id_register,
}
use ax_kernel.DeviceTree.Nodes.{scan, enter, enter_at, has_kind, interrupt, address}
use ax_kernel.DeviceTree.Tokens.{parse_dtb-scan}

-- An input device at `mmio_addr` as the last child of the root, and the end of the root.
abbrev pub last_input : ℕ → List Token
last_input mmio_addr = begin_token 0 ∷ prop_token 16 (reg mmio_addr) ∷ end_token ∷ end_token ∷ []

-- The notes about a node do not outlast the start of the next one.
scan-append :
    (device_id : ℕ → ℕ) (before after : List Token) (len : ℕ) (said : List Property) (f : Found)
    → scan device_id (before ++ (begin_token len ∷ after)) said f
      ≡ scan device_id after [] (scan device_id before said f)
unfolding scan
scan-append device_id [] after len said f = refl
scan-append device_id (begin_token l ∷ before) after len said f =
    scan-append device_id before after len [] f
scan-append device_id (end_token ∷ before) after len said f =
    scan-append device_id before after len said _
scan-append device_id (prop_token l property ∷ before) after len said f =
    scan-append device_id before after len (property ∷ said) f
scan-append device_id (nop_token ∷ before) after len said f =
    scan-append device_id before after len said f

-- The findings with one more input device.
abbrev with_input : ℕ → Found → Found
with_input mmio_addr f = enter_at (λ k. 18 == k) none mmio_addr f

end_of_input :
    (device_id : ℕ → ℕ) (mmio_addr : ℕ) (f : Found)
    → 0x0a000000 ≤ mmio_addr
    → mmio_addr < 0x0a200000
    → device_id mmio_addr ≡ 18
    → enter
        (λ k. has_kind device_id k (reg mmio_addr ∷ []))
        (interrupt (reg mmio_addr ∷ []))
        (address (reg mmio_addr ∷ []))
        f
      ≡ with_input mmio_addr f
unfolding enter has_kind interrupt address
end_of_input device_id mmio_addr f low high kind =
    let inside : (leb 0x0a000000 mmio_addr && ltb mmio_addr 0x0a200000) ≡ true =
      ground (arith, low, high) in
    rw inside (ap (λ d. enter_at (λ k. d == k) none mmio_addr f) kind)

with_input_lem :
    (mmio_addr : ℕ) (f : Found)
    → f.virtio_input_count < 4
    → ((with_input mmio_addr f).virtio_input_count ≡ f.virtio_input_count + 1)
      × (((with_input mmio_addr f).virtio_input_bases f.virtio_input_count ≡ mmio_addr)
          × ((i : ℕ)
              → i < f.virtio_input_count
              → (with_input mmio_addr f).virtio_input_bases i ≡ f.virtio_input_bases i))
unfolding enter_at
with_input_lem mmio_addr f lt =
    (ground (arith, lt), (ground (arith, lt), λ i small. ground (arith, lt, small)))

-- The last child of the root is an input device, without its interrupt here: it is entered a second
-- time at the end of the root, when the tables have room for two more.
pub parse_dtb_nested :
    (fuel : ℕ) (memory : ℕ → ℕ) (dtb_addr : ℕ) (before : List Token) (mmio_addr : ℕ) (f : Found)
    → IsTree memory dtb_addr (before ++ last_input mmio_addr)
    → length (before ++ last_input mmio_addr) < fuel
    → (0x0a000000 ≤ mmio_addr) × (mmio_addr < 0x0a200000)
    → id_register memory mmio_addr ≡ 18
    → (scan (id_register memory) before [] f).virtio_input_count ≤ 2
    → (f' : Found) × ((parse_dtb fuel memory dtb_addr f ≡ some f')
        × ((f'.virtio_input_count ≡ (scan (id_register memory) before [] f).virtio_input_count + 2)
            × ((f'.virtio_input_bases (scan (id_register memory) before [] f).virtio_input_count
                  ≡ mmio_addr)
                × (f'.virtio_input_bases
                      ((scan (id_register memory) before [] f).virtio_input_count + 1)
                    ≡ mmio_addr))))
unfolding scan
parse_dtb_nested fuel memory dtb_addr before mmio_addr f tree enough window kind few =
    let device_id = id_register memory in
    let f1 = scan device_id before [] f in
    let f2 = with_input mmio_addr f1 in
    let end_one = λ (g : Found). end_of_input device_id mmio_addr g window.0 window.1 kind in
    let scanned : scan device_id (before ++ last_input mmio_addr) [] f ≡ with_input mmio_addr f2 =
      scan-append device_id before (prop_token 16 (reg mmio_addr) ∷ end_token ∷ end_token ∷ []) 0 []
        f
      ∙ (end_one _ ∙ ap (with_input mmio_addr) (end_one f1)) in
    let first = with_input_lem mmio_addr f1 (omega (arith, few)) in
    let second = with_input_lem mmio_addr f2 (omega (arith, few, first.0)) in
    (
      with_input mmio_addr f2,
      (
        parse_dtb-scan fuel memory dtb_addr (before ++ last_input mmio_addr) f tree enough
            ∙ ap some scanned,
        (
          omega (arith, first.0, second.0),
          (
            second.1.1 f1.virtio_input_count (omega (arith, first.0)) ∙ first.1.0,
            ap (with_input mmio_addr f2).virtio_input_bases (sym first.0) ∙ second.1.0,
          ),
        ),
      ),
    )
