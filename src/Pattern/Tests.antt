-- ===== src/Pattern/Tests.antt =====
-- The theorem on `expandPattern` of internal/utils.go for the pattern `w(a|b).x|y`.
use bill_vpn.Common.{◌≡◌, refl, some, [], ◌∷◌, codes}
use mathlib.Core.List.{flatten}
use bill_vpn.Route.{has_byte}
use bill_vpn.Pattern.{combine, expand_pattern}
use bill_vpn.Pattern.Words.{Piece, render, words, expand_pattern-render}

abbrev piece : Piece
piece = record { literal = codes "w"; first = codes "a"; others = codes "b" ∷ [] }

listed :
    words (piece ∷ []) (codes ".x") (codes "y" ∷ [])
    ≡ codes "wa.x" ∷ codes "way" ∷ codes "wb.x" ∷ codes "wby" ∷ []
unfolding words combine flatten
listed = refl

expand_pattern-render_example :
    expand_pattern (codes "w(a|b).x|y") ≡ some (words (piece ∷ []) (codes ".x") (codes "y" ∷ []))
unfolding has_byte render
expand_pattern-render_example =
    expand_pattern-render (piece ∷ []) (codes ".x") (codes "y" ∷ [])
      ((refl, (refl, refl, refl), ((refl, refl, refl), tt)), tt) (refl, refl, refl)
      ((refl, refl, refl), tt)
